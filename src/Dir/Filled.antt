-- ===== src/Dir/Filled.antt =====
-- The bytes that `cominix_add_link` of src/dir.c writes into an entry.
use cominix_fs.Prelude.{
  ℕ, zero, suc, ◌+◌, ◌-◌, ◌*◌, ◌/◌, ◌%◌, ◌^◌, ◌<◌, ◌≤◌, ◌≡◌, refl, sym, ap, ◌∙◌, ◌⊎◌, inl, inr,
  List, arith, Bool-cases, ltb, length, get_or, replicate, length-replicate,
}
use cominix_fs.Dir.{Dir, page_size, inode_bytes, fill_entry}
use cominix_fs.Dir.Names.{IsName, get_or_past}
use cominix_fs.Dir.Number.{put_bytes-entry, put_bytes-entry_start}
use cominix_fs.Dir.Slots.{DirOk, page_large}
use cominix_fs.Disk.{Disk, byte_at, flat_write, flat_read, put_bytes, to_le, from_le}
use cominix_fs.Disk.Flat.{byte_at-flat_write, byte_at-flat_write_apart, flat_read-flat_write}
use cominix_fs.Disk.Words.{length-to_le, from_le-to_le}
use cominix_fs.Fs.{SbInfo}

pub get_or-replicate : (n k : ℕ) → get_or (replicate {A = ℕ} n 0) k 0 ≡ 0
get_or-replicate zero k = refl
get_or-replicate (suc n) zero = refl
get_or-replicate (suc n) (suc k) = get_or-replicate n k

module _ (sbi : SbInfo) (d : Dir) (v : DirOk sbi d) (j : ℕ) (name : List ℕ)
    (nv : IsName sbi.s_namelen name) (ino : ℕ) where
  abbrev at : ℕ
  at = j * sbi.s_dirsize

  abbrev ib : ℕ
  ib = inode_bytes sbi

  abbrev padding : List ℕ
  padding = replicate (sbi.s_dirsize - length name - inode_bytes sbi) 0

  abbrev size : ℕ
  size = page_size d

  module _ (m : Disk) where
    abbrev with_name : Disk
    with_name = flat_write size m (at + ib) name

    abbrev padded : Disk
    padded = flat_write size with_name (at + (ib + length name)) padding

    abbrev pub filled : Disk
    filled = flat_write size padded at (to_le ib ino)

    room_for_name : ib + length name + length padding ≡ sbi.s_dirsize
    room_for_name =
        omega (arith, length-replicate {A = ℕ} (sbi.s_dirsize - length name - ib) 0, v.fits, nv.0)

    -- Nothing changes outside the entry.
    pub filled_outside :
        (c : ℕ)
        → (c < j * sbi.s_dirsize) ⊎ (j * sbi.s_dirsize + sbi.s_dirsize ≤ c)
        → byte_at (page_size d) filled c ≡ byte_at (page_size d) m c
    filled_outside c out =
        byte_at-flat_write_apart size (page_large sbi d v) padded at (to_le ib ino) c
          (ground (arith, room_for_name, length-to_le ib ino))
        ∙ byte_at-flat_write_apart size (page_large sbi d v) with_name (at + (ib + length name))
            padding c (ground (arith, room_for_name))
        ∙ byte_at-flat_write_apart size (page_large sbi d v) m (at + ib) name c
            (ground (arith, room_for_name))

    pub filled_ino :
        ino < 256 ^ inode_bytes sbi
        → from_le (flat_read (page_size d) filled (j * sbi.s_dirsize) (inode_bytes sbi)) ≡ ino
    filled_ino small =
        ap (λ n. from_le (flat_read size filled at n)) (sym (length-to_le ib ino))
        ∙ ap from_le (flat_read-flat_write size (page_large sbi d v) padded at (to_le ib ino))
        ∙ from_le-to_le ib ino small

    -- The field holds the name with zeroes behind it.
    pub filled_name :
        (k : ℕ)
        → k < sbi.s_namelen
        → byte_at (page_size d) filled (j * sbi.s_dirsize + inode_bytes sbi + k) ≡ get_or name k 0
    filled_name k lt =
        let c = at + ib + k in
        byte_at-flat_write_apart size (page_large sbi d v) padded at (to_le ib ino) c
          (inr (omega (arith, length-to_le ib ino)))
        ∙ elim (Bool-cases (ltb k (length name))) [
          | inl inside ↦
              let lt' : k < length name = ground arith in
              let z : c - (at + ib) ≡ k = omega arith in
              byte_at-flat_write_apart size (page_large sbi d v) with_name (at + (ib + length name))
                padding c (inl (omega arith))
              ∙ byte_at-flat_write size (page_large sbi d v) m (at + ib) name c
              ∙ rw z (ground arith)
          | inr past ↦
              let le : length name ≤ k = ground arith in
              byte_at-flat_write size (page_large sbi d v) with_name (at + (ib + length name))
                padding c
              ∙ ground (
                arith,
                room_for_name,
                v.fits,
                get_or-replicate (sbi.s_dirsize - length name - ib) (c - (at + (ib + length name))),
              )
              ∙ sym (get_or_past name k le)
        ]

  pub fill_entry-filled :
      (e : Dir)
      → fill_entry sbi (j / v.per_page) (j % v.per_page * sbi.s_dirsize) name ino e
        ≡ record e { mapping = filled e.mapping }
  unfolding fill_entry
  fill_entry-filled e =
      let q = j / v.per_page in
      let p = j % v.per_page * sbi.s_dirsize in
      let fit = room_for_name e.mapping in
      let s : p + ib + length name ≡ p + (ib + length name) = omega arith in
      ap (λ m. record e { mapping = m })
        (ap (λ m. put_bytes (put_bytes m q (p + ib + length name) padding) q p (to_le ib ino))
            (put_bytes-entry sbi d v j e.mapping ib name (omega (arith, fit)))
          ∙ ap (λ o. put_bytes (put_bytes (with_name e.mapping) q o padding) q p (to_le ib ino)) s
          ∙ ap (λ m. put_bytes m q p (to_le ib ino))
              (put_bytes-entry sbi d v j (with_name e.mapping) (ib + length name) padding
                (omega (arith, fit)))
          ∙ put_bytes-entry_start sbi d v j (padded e.mapping) (to_le ib ino)
              (omega (arith, length-to_le ib ino, v.fits)))
