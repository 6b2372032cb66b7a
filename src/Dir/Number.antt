-- ===== src/Dir/Number.antt =====
-- The changes of src/dir.c to the number of an entry.
use native.Mathlib.Nat.{div-add-mod', mod-lt, mul-le-mul_right, add-mul}
use cominix_fs.Prelude.{
  ℕ, ◌+◌, ◌*◌, ◌/◌, ◌%◌, ◌^◌, ◌<◌, ◌≤◌, ◌≡◌, sym, ap, ◌∙◌, inl, inr, List, arith, le→ltb, length,
}
use cominix_fs.Dir.{Dir, page_size, inode_bytes, dir_commit_chunk, put_inumber}
use cominix_fs.Dir.Change.{changed, Changes}
use cominix_fs.Dir.Slots.{DirOk, slot_ino, slot_name, page_large, address, entry_in_page}
use cominix_fs.Disk.{Disk, put_bytes, flat_read, flat_write, to_le, from_le}
use cominix_fs.Disk.Flat.{put_bytes-flat, flat_read-flat_write, byte_at-flat_write_apart}
use cominix_fs.Disk.Words.{length-to_le, from_le-to_le}
use cominix_fs.Fs.{SbInfo}

module _ (sbi : SbInfo) (d : Dir) (v : DirOk sbi d) (j : ℕ) where
  pub place_address :
      j / v.per_page * page_size d + j % v.per_page * sbi.s_dirsize ≡ j * sbi.s_dirsize
  place_address =
      address sbi d v (j / v.per_page) (j % v.per_page)
      ∙ ap (λ k. k * sbi.s_dirsize) (div-add-mod' j v.per_page)

  -- A write in entry `j` is a write at its address.
  pub put_bytes-entry :
      (m : Disk) (x : ℕ) (xs : List ℕ)
      → x + length xs ≤ sbi.s_dirsize
      → put_bytes m (j / v.per_page) (j % v.per_page * sbi.s_dirsize + x) xs
        ≡ flat_write (page_size d) m (j * sbi.s_dirsize + x) xs
  put_bytes-entry m x xs h =
      put_bytes-flat (page_size d) (page_large sbi d v) m (j / v.per_page)
        (j % v.per_page * sbi.s_dirsize + x) xs
        (omega (arith, entry_in_page sbi d v (j % v.per_page) (mod-lt j v.page_pos)))
      ∙ ap (λ a. flat_write (page_size d) m a xs) (omega (arith, place_address))

  pub put_bytes-entry_start :
      (m : Disk) (xs : List ℕ)
      → length xs ≤ sbi.s_dirsize
      → put_bytes m (j / v.per_page) (j % v.per_page * sbi.s_dirsize) xs
        ≡ flat_write (page_size d) m (j * sbi.s_dirsize) xs
  put_bytes-entry_start m xs h =
      let z : j % v.per_page * sbi.s_dirsize ≡ j % v.per_page * sbi.s_dirsize + 0 = omega arith in
      let z' : j * sbi.s_dirsize + 0 ≡ j * sbi.s_dirsize = omega arith in
      ap (λ o. put_bytes m (j / v.per_page) o xs) z
      ∙ put_bytes-entry m 0 xs (omega arith)
      ∙ ap (λ a. flat_write (page_size d) m a xs) z'

  module _ (ino : ℕ) where
    abbrev pub numbered : Disk
    numbered = flat_write (page_size d) d.mapping (j * sbi.s_dirsize) (to_le (inode_bytes sbi) ino)

    number_short : length (to_le (inode_bytes sbi) ino) ≤ sbi.s_dirsize
    number_short = omega (arith, length-to_le (inode_bytes sbi) ino, v.fits)

    pub numbered-Changes : j < v.count → Changes sbi d v j d.i_size numbered
    numbered-Changes lt = record {
      count' = v.count;
      grows = omega arith;
      inside = lt;
      only = λ i lo hi. absurd (omega arith);
      sized = v.sized;
      bytes = λ c out.
          byte_at-flat_write_apart (page_size d) (page_large sbi d v) d.mapping (j * sbi.s_dirsize)
            (to_le (inode_bytes sbi) ino) c
            (elim out [ inl below ↦ inl below | inr above ↦ inr (omega (arith, number_short)) ]);
    }

    pub numbered-slot_ino :
        ino < 256 ^ inode_bytes sbi → slot_ino sbi (changed d d.i_size numbered) j ≡ ino
    numbered-slot_ino small =
        ap (λ n. from_le (flat_read (page_size d) numbered (j * sbi.s_dirsize) n))
          (sym (length-to_le (inode_bytes sbi) ino))
        ∙ ap from_le (
            flat_read-flat_write (page_size d) (page_large sbi d v) d.mapping (j * sbi.s_dirsize)
              (to_le (inode_bytes sbi) ino))
        ∙ from_le-to_le (inode_bytes sbi) ino small

    pub numbered-slot_name :
        (k : ℕ) → slot_name sbi (changed d d.i_size numbered) j k ≡ slot_name sbi d j k
    numbered-slot_name k =
        byte_at-flat_write_apart (page_size d) (page_large sbi d v) d.mapping (j * sbi.s_dirsize)
          (to_le (inode_bytes sbi) ino) (j * sbi.s_dirsize + inode_bytes sbi + k)
          (inr (omega (arith, length-to_le (inode_bytes sbi) ino)))

    module _ (prepare : Dir → ℕ → ℕ → ℕ) (dirsync : Dir → ℕ) (page_error : ℕ → ℕ) where
      -- the call for entry `j`
      pub renumber_ready :
          j < v.count
          → ((e : Dir) (pos : ℕ) → prepare e pos sbi.s_dirsize ≡ 0)
          → put_inumber prepare dirsync page_error sbi
              (j / v.per_page)
              (j % v.per_page * sbi.s_dirsize)
              ino
              d
            ≡ (dirsync (changed d d.i_size numbered), changed d d.i_size numbered)
      unfolding put_inumber dir_commit_chunk
      renumber_ready lt ready =
          let inside : j * sbi.s_dirsize + sbi.s_dirsize ≤ d.i_size = omega (
            arith,
            v.sized,
            mul-le-mul_right {m = j + 1} {n = v.count} sbi.s_dirsize (omega arith),
            add-mul j 1 sbi.s_dirsize,
          ) in
          rw (
            place_address,
            ready d (j * sbi.s_dirsize),
            put_bytes-entry_start d.mapping (to_le (inode_bytes sbi) ino) number_short,
            le→ltb d.i_size (j * sbi.s_dirsize + sbi.s_dirsize) inside,
          )
