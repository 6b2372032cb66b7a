-- ===== src/Tests/Dirs.antt =====
-- A directory of three entries on two pages. The second entry has number 5 and the name `ab`, the
-- others are not in use.
use cominix_fs.Prelude.{
  ℕ, zero, suc, ◌<◌, ◌≡◌, ◌↔◌, refl, sym, ◌∙◌, true, none, some, List, [], ◌∷◌, arith,
  if◌then◌else◌, ◌==◌, ◌&&◌,
}
use cominix_fs.Dir.{
  Dir, for_each, for_entries, dir_pages, cominix_last_byte, inode_bytes, inumber, namx, same_bytes,
  namecompare, find_test, cominix_find_entry, cominix_delete_entry, cominix_set_link,
  cominix_add_link, cominix_empty_dir, cominix_make_empty,
}
use cominix_fs.Dir.Unique.{IsUnique, Rebinds}
use cominix_fs.Dir.Empty.{IsDots, empty_dir-IsDots}
use cominix_fs.Dir.Dots.{IsNew}
use cominix_fs.Dir.MakeEmpty.{make_empty-IsNew}
use cominix_fs.Dir.Insert.{add_link-Rebinds}
use cominix_fs.Dir.Modify.{hit_unused, delete_entry-Rebinds, set_link-Rebinds}
use cominix_fs.Dir.Slots.{DirOk, slot_ino, hit}
use cominix_fs.Disk.{byte_at, flat_read, from_le, get_bytes}
use cominix_fs.Tests.{small_sb}

abbrev pub ab : List ℕ
ab = 97 ∷ 98 ∷ []

abbrev pub cd : List ℕ
cd = 99 ∷ 100 ∷ []

abbrev pub little : Dir
little = record {
  i_ino = 1;
  i_size = 192;
  page_shift = 7;
  page_ok = λ n. true;
  mapping = λ n o.
      if n == 0 && o == 64
      then 5
      else if n == 0 && o == 68
      then 97
      else if n == 0 && o == 69
      then 98
      else 0;
}

pub bytes_v3 : inode_bytes small_sb ≡ 4
unfolding inode_bytes
bytes_v3 = refl

abbrev pub little-DirOk : DirOk small_sb little
little-DirOk = record {
  per_page = 2;
  count = 3;
  entry_pos = omega arith;
  page_pos = omega arith;
  paged = refl;
  sized = refl;
  pages = λ n. refl;
  fits = omega (arith, bytes_v3);
}

unused_first : slot_ino small_sb little 0 ≡ 0
unfolding byte_at flat_read from_le inode_bytes
unused_first = refl

unused_last : slot_ino small_sb little 2 ≡ 0
unfolding byte_at flat_read from_le inode_bytes
unused_last = refl

only_second : (name : List ℕ) (i : ℕ) → i < 3 → hit small_sb little name i ≡ true → i ≡ 1
only_second name zero lt e = absurd (cc (hit_unused small_sb little name 0 unused_first, e))
only_second name (suc zero) lt e = refl
only_second name (suc (suc zero)) lt e =
    absurd (cc (hit_unused small_sb little name 2 unused_last, e))
only_second name (suc (suc (suc i))) lt e = absurd (omega arith)

pub little-IsUnique : IsUnique small_sb little 3
little-IsUnique name i j nv li lj hi hj = only_second name i li hi ∙ sym (only_second name j lj hj)

pub ab_found : cominix_find_entry small_sb little ab ≡ some (0, 64)
unfolding cominix_find_entry for_entries for_each dir_pages cominix_last_byte find_test inumber namx
    namecompare same_bytes from_le get_bytes inode_bytes
ab_found = refl

pub cd_missing : cominix_find_entry small_sb little cd ≡ none
unfolding cominix_find_entry for_entries for_each dir_pages cominix_last_byte find_test inumber namx
    namecompare same_bytes from_le get_bytes inode_bytes
cd_missing = refl

-- The kernel prepares every write, and syncing gives no error.
abbrev prepare : Dir → ℕ → ℕ → ℕ
prepare = λ d pos len. 0

abbrev dirsync : Dir → ℕ
dirsync = λ d. 0

abbrev page_error : ℕ → ℕ
page_error = λ n. 5

delete_entry-Rebinds_example :
    let r = cominix_delete_entry prepare dirsync page_error small_sb (0, 64) little in
    (r.0 ≡ dirsync r.1) × Rebinds small_sb little r.1 ab 0 ab
delete_entry-Rebinds_example =
    delete_entry-Rebinds prepare dirsync page_error small_sb (λ e pos. refl) little little-DirOk
      little-IsUnique ab (omega arith, (omega arith, (omega arith, tt))) (0, 64) ab_found ab
      (omega arith, (omega arith, (omega arith, tt)))

set_link-Rebinds_example :
    let r = cominix_set_link prepare dirsync page_error small_sb (0, 64) 300 little in
    (r.0 ≡ dirsync r.1) × Rebinds small_sb little r.1 ab 300 ab
unfolding inode_bytes
set_link-Rebinds_example =
    set_link-Rebinds prepare dirsync page_error small_sb (λ e pos. refl) little little-DirOk
      little-IsUnique ab (omega arith, (omega arith, (omega arith, tt))) (0, 64) ab_found ab
      (omega arith, (omega arith, (omega arith, tt))) 300 (λ e. omega arith) (omega arith)

add_link-Rebinds_example :
    (e : Dir) × (cominix_add_link prepare dirsync page_error small_sb cd 7 little
      ≡ some (dirsync e, e))
    × Rebinds small_sb little e cd 7 ab
unfolding inode_bytes
add_link-Rebinds_example =
    add_link-Rebinds prepare dirsync page_error small_sb (λ e pos. refl) little little-DirOk
      little-IsUnique cd (omega arith, (omega arith, (omega arith, tt))) cd_missing 7
      (λ e. omega arith) (omega arith) ab (omega arith, (omega arith, (omega arith, tt)))

empty_dir-IsDots_example :
    (cominix_empty_dir small_sb little ≡ true) ↔ ((k : ℕ) → k < 3 → IsDots small_sb little k)
empty_dir-IsDots_example = empty_dir-IsDots small_sb little little-DirOk (omega arith)

-- a directory without entries
abbrev fresh : Dir
fresh = record little { i_ino = 9; i_size = 0 }

abbrev fresh-DirOk : DirOk small_sb fresh
fresh-DirOk = record {
  per_page = 2;
  count = 0;
  entry_pos = omega arith;
  page_pos = omega arith;
  paged = refl;
  sized = refl;
  pages = λ n. refl;
  fits = omega (arith, bytes_v3);
}

make_empty-IsNew_example :
    let r = cominix_make_empty prepare dirsync page_error small_sb 0 1 fresh in
    (r.0 ≡ dirsync r.1) × IsNew small_sb r.1 9 1
unfolding inode_bytes
make_empty-IsNew_example =
    make_empty-IsNew prepare dirsync page_error small_sb fresh fresh-DirOk refl (omega arith)
      (omega arith) 1 (λ e. omega arith) (λ e. omega arith) (omega arith) (omega arith) refl
