-- ===== src/Tests/Names.antt =====
-- A tree of inodes: number 1 is the directory of three entries, the others are files with one link.
use cominix_fs.Bitmap.Inodes.{ImapOk, used}
use cominix_fs.Bitmap.Maps.{bit_at}
use cominix_fs.Dir.{
  for_each, dir_pages, cominix_last_byte, inode_bytes, inumber, namx, same_bytes, namecompare,
  find_room, room_test, cominix_add_link,
}
use cominix_fs.Dir.Unique.{Rebinds}
use cominix_fs.Disk.{from_le, get_bytes}
use cominix_fs.Fs.{Fs, ok}
use cominix_fs.Inode.{Inode, regular, directory, other_operations}
use cominix_fs.Namei.{
  Node, Tree, Vfs, Done, dir_of, fail, cominix_link, cominix_unlink, cominix_mkdir, mkdir_inode,
}
use cominix_fs.Namei.Links.{nlink, link_fails, link-Rebinds, unlink-Rebinds}
use cominix_fs.Namei.Rmdir.{rmdir-Rebinds}
use cominix_fs.Dir.{cominix_empty_dir, for_entries}
use cominix_fs.Namei.{cominix_rmdir}
use cominix_fs.Namei.Mkdir.{mkdir_counts, mkdir_inode-counts}
use cominix_fs.Namei.Given.{MadeDir}
use cominix_fs.Namei.NewDir.{mkdir-MadeDir}
use cominix_fs.Prelude.{
  ℕ, ◌+◌, ◌-◌, ◌≤◌, ◌≡◌, refl, ◌⊎◌, true, false, none, some, [], ◌∷◌, arith, ltb, ◌==◌,
  if◌then◌else◌,
}
use cominix_fs.Tests.{small_sb, small_fs}
use cominix_fs.Tests.Bits.{bit_ops}
use cominix_fs.Tests.Dirs.{ab, cd, little, little-DirOk, little-IsUnique, ab_found, cd_missing}

abbrev plain_inode : ℕ → ℕ → ℕ → Inode
plain_inode mode size links = record {
  i_ino = 1;
  i_mode = mode;
  i_uid = 0;
  i_gid = 0;
  i_nlink = links;
  i_size = size;
  i_atime = 0;
  i_mtime = 0;
  i_ctime = 0;
  i_blocks = 0;
  i_rdev = 0;
  i_data = [];
  i_op = other_operations;
  i_fop = other_operations;
  a_ops = other_operations;
}

abbrev empty_node : ℕ → Node
empty_node mode = record {
  inode = plain_inode mode 0 1;
  page_shift = 7;
  page_ok = λ n. true;
  mapping = λ n o. 0;
}

abbrev root : Node
root = record {
  inode = plain_inode 16877 192 2;
  page_shift = 7;
  page_ok = λ n. true;
  mapping = little.mapping;
}

abbrev small_tree : Tree
small_tree = λ m. if m == 1 then root else empty_node 0

abbrev pub kernel : Vfs
kernel = record {
  given = true;
  born = λ dir mode. empty_node mode;
  cached = λ m. none;
  page_symlink = λ n target. (0, n);
  grab = λ m. 0;
  prepare = λ d pos len. 0;
  dirsync = λ d. 0;
  page_error = λ n. 5;
  old_valid_dev = λ d. true;
  file_type = λ mode. if mode == 16877 then directory else regular;
  init_special_inode = λ rdev i. i;
  old_decode_dev = λ d. d;
  old_encode_dev = λ d. d;
  fs_high2lowuid = λ d. d;
  fs_high2lowgid = λ d. d;
  born_nlink = λ dir mode. refl;
  born_size = λ dir mode. refl;
  born_type = λ dir mode. refl;
}

-- the inode map with the bits 0 and 1 taken
abbrev mapped : Fs
mapped = record small_fs { s_imap = (λ n. ltb n 2) ∷ [] }

link-Rebinds_example :
    (t' : Tree) × (cominix_link bit_ops kernel cd 1 5 small_tree mapped
      ≡ ok (record { err = 0; d_inode = some 5; tree = t' }) mapped)
    × Rebinds small_sb little (dir_of (t' 1)) cd 5 ab
    × ((m : ℕ) → nlink t' m ≡ (if m == 5 then nlink small_tree m + 1 else nlink small_tree m))
unfolding inode_bytes
link-Rebinds_example =
    link-Rebinds bit_ops kernel mapped 1 cd small_tree little-DirOk little-IsUnique
      (omega arith, (omega arith, (omega arith, tt))) (λ e pos. refl) (λ e. refl) 5 ab
      (omega arith, (omega arith, (omega arith, tt))) cd_missing (λ e. omega arith) (omega arith)
      (omega arith)

unlink-Rebinds_example :
    (t' : Tree) × (cominix_unlink bit_ops kernel ab 1 5 small_tree mapped ≡ ok (0, t') mapped)
    × Rebinds small_sb little (dir_of (t' 1)) ab 0 cd
    × ((m : ℕ) → nlink t' m ≡ (if m == 5 then nlink small_tree m - 1 else nlink small_tree m))
unlink-Rebinds_example =
    unlink-Rebinds bit_ops kernel mapped 1 ab small_tree little-DirOk little-IsUnique
      (omega arith, (omega arith, (omega arith, tt))) (λ e pos. refl) (λ e. refl) 5 cd
      (omega arith, (omega arith, (omega arith, tt))) (0, 64) ab_found (omega arith) (omega arith)

-- a kernel that cannot prepare a write
abbrev no_space : Vfs
no_space = record kernel { prepare = λ d pos len. 28 }

cd_refused :
    cominix_add_link no_space.prepare no_space.dirsync no_space.page_error small_sb cd 5 little
    ≡ some (28, little)
unfolding cominix_add_link find_room room_test for_each dir_pages cominix_last_byte inumber namx
    namecompare same_bytes from_le get_bytes inode_bytes
cd_refused = refl

link_fails_example :
    (t' : Tree) × (cominix_link bit_ops no_space cd 1 5 small_tree mapped ≡ ok (fail 28 t') mapped)
    × (dir_of (t' 1) ≡ little)
    × ((m : ℕ) → nlink t' m ≡ nlink small_tree m)
link_fails_example =
    link_fails bit_ops no_space mapped 1 cd small_tree 5 (omega arith) 28 little (λ e. omega arith)
      cd_refused

mkdir_inode-counts_example :
    (e : Done) × (mkdir_inode bit_ops no_space cd 1 5 small_tree mapped ≡ ok e mapped)
    × ((m : ℕ) → nlink e.tree m ≡ mkdir_counts 1 5 small_tree e m)
mkdir_inode-counts_example =
    mkdir_inode-counts bit_ops no_space mapped 1 5 (λ z. omega arith) cd small_tree refl
      (omega arith) (28, little) cd_refused

zero_in_use : used mapped 0 ≡ true
unfolding bit_at
zero_in_use = refl

root_in_use : used mapped 1 ≡ true
unfolding bit_at
root_in_use = refl

mapped-ImapOk : ImapOk mapped
mapped-ImapOk = record { sized = refl; zero_used = zero_in_use; enough = omega arith }

mkdir-MadeDir_example :
    ((ino : ℕ) × (t' : Tree) × (s' : Fs) × (cominix_mkdir bit_ops kernel cd 1 493 small_tree mapped
        ≡ ok (record { err = 0; d_inode = some ino; tree = t' }) s')
      × (used mapped ino ≡ false)
      × ((j : ℕ) → used s' j ≡ (if ino == j then true else used mapped j))
      × MadeDir mapped 1 ino cd ab small_tree t')
    ⊎ ((s' : Fs) × (cominix_mkdir bit_ops kernel cd 1 493 small_tree mapped
          ≡ ok (fail 28 small_tree) s')
        × ((j : ℕ) → j ≤ 8 → used mapped j ≡ true))
unfolding inode_bytes
mkdir-MadeDir_example =
    mkdir-MadeDir bit_ops kernel mapped mapped-ImapOk refl 1 small_tree cd 493 (λ e pos len. refl)
      (λ e. refl) (λ j. refl) refl refl (λ j. refl) little-DirOk little-IsUnique (omega arith)
      (omega arith) (omega arith, (omega arith, (omega arith, tt))) cd_missing (λ e. omega arith)
      root_in_use (omega arith) (omega arith) (omega arith) ab
      (omega arith, (omega arith, (omega arith, tt)))

-- the others are directories without entries
abbrev dir_tree : Tree
dir_tree = λ m. if m == 1 then root else record {
  inode = plain_inode 16877 0 2;
  page_shift = 7;
  page_ok = λ n. true;
  mapping = λ n o. 0;
}

nothing_inside : cominix_empty_dir small_sb (dir_of (dir_tree 5)) ≡ true
unfolding cominix_empty_dir for_entries for_each dir_pages
nothing_inside = refl

rmdir-Rebinds_example :
    (t' : Tree) × (cominix_rmdir bit_ops kernel ab 1 5 dir_tree mapped ≡ ok (0, t') mapped)
    × Rebinds small_sb little (dir_of (t' 1)) ab 0 cd
    × ((m : ℕ)
        → nlink t' m ≡ (
            if m == 5
            then nlink dir_tree m - 2
            else if m == 1
            then nlink dir_tree m - 1
            else nlink dir_tree m))
rmdir-Rebinds_example =
    rmdir-Rebinds bit_ops kernel mapped 1 ab dir_tree little-DirOk little-IsUnique
      (omega arith, (omega arith, (omega arith, tt))) (λ e pos. refl) (λ e. refl) 5 cd
      (omega arith, (omega arith, (omega arith, tt))) (0, 64) ab_found nothing_inside
      (λ e. omega arith) (omega arith) (omega arith) (omega arith) (omega arith)
