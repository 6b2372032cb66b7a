-- ===== src/Dir/MakeEmpty.antt =====
-- `cominix_make_empty` of src/dir.c.
use native.Mathlib.Nat.{mul-le-mul_right}
use cominix_fs.Prelude.{
  ℕ, ◌+◌, ◌-◌, ◌*◌, ◌^◌, ◌<◌, ◌≤◌, ◌≡◌, ◌≢◌, refl, sym, ap, ◌∙◌, ◌⊎◌, inl, inr, List, [], ◌∷◌,
  arith, Bool-cases, ltb, lt→ltb, length, get_or, replicate, length-replicate,
}
use cominix_fs.Dir.{Dir, page_size, inode_bytes, dir_commit_chunk, cominix_make_empty}
use cominix_fs.Dir.Change.{changed}
use cominix_fs.Dir.Dots.{dot_string, dotdot_string, Dots, IsNew, Dots-IsNew}
use cominix_fs.Dir.Empty.{dot, dotdot}
use cominix_fs.Dir.Filled.{get_or-replicate}
use cominix_fs.Dir.Names.{get_or_past}
use cominix_fs.Dir.Slots.{DirOk, page_large}
use cominix_fs.Disk.{Disk, byte_at, flat_read, flat_write, put_bytes, to_le, from_le}
use cominix_fs.Disk.Flat.{
  put_bytes-flat, byte_at-flat_write, byte_at-flat_write_apart, flat_read_congr,
  flat_read-flat_write,
}
use cominix_fs.Disk.Words.{length-to_le, from_le-to_le}
use cominix_fs.Fs.{SbInfo}

module _ (sbi : SbInfo) (d : Dir) (v : DirOk sbi d) where
  abbrev size : ℕ
  size = page_size d

  abbrev ib : ℕ
  ib = inode_bytes sbi

  first_page :
      (m : Disk) (o : ℕ) (xs : List ℕ)
      → o + length xs ≤ size
      → put_bytes m 0 o xs ≡ flat_write size m o xs
  first_page m o xs h =
      let z : 0 * size + o ≡ o = omega arith in
      put_bytes-flat size (page_large sbi d v) m 0 o xs h ∙ ap (λ a. flat_write size m a xs) z

  abbrev number_at : Disk → ℕ → ℕ → Disk
  number_at m a ino = flat_write size m a (to_le ib ino)

  abbrev entry_at : Disk → ℕ → ℕ → List ℕ → Disk
  entry_at m a ino stored = flat_write size (number_at m a ino) (a + ib) stored

  -- A number and a name, with a 0 behind it, are written at `a` where the entry has only zeroes.
  module _ (m : Disk) (a ino : ℕ) (name stored : List ℕ)
      (same : (k : ℕ) → get_or stored k 0 ≡ get_or name k 0)
      (fit : ib + length stored ≤ sbi.s_dirsize)
      (clear : (c : ℕ) → a ≤ c → c < a + sbi.s_dirsize → byte_at size m c ≡ 0) where
    abbrev wrote_ino : Disk
    wrote_ino = number_at m a ino

    abbrev wrote : Disk
    wrote = entry_at m a ino stored

    wrote_outside :
        (c : ℕ) → (c < a) ⊎ (a + sbi.s_dirsize ≤ c) → byte_at size wrote c ≡ byte_at size m c
    wrote_outside c out =
        byte_at-flat_write_apart size (page_large sbi d v) wrote_ino (a + ib) stored c
          (ground (arith, fit))
        ∙ byte_at-flat_write_apart size (page_large sbi d v) m a (to_le ib ino) c
            (ground (arith, fit, length-to_le ib ino))

    wrote-number : ino < 256 ^ ib → from_le (flat_read size wrote a ib) ≡ ino
    wrote-number small =
        ap from_le (
          flat_read_congr size wrote wrote_ino a ib (λ c lo hi.
            byte_at-flat_write_apart size (page_large sbi d v) wrote_ino (a + ib) stored c
              (inl hi)))
        ∙ ap (λ n. from_le (flat_read size wrote_ino a n)) (sym (length-to_le ib ino))
        ∙ ap from_le (flat_read-flat_write size (page_large sbi d v) m a (to_le ib ino))
        ∙ from_le-to_le ib ino small

    wrote-name : (k : ℕ) → k < sbi.s_namelen → byte_at size wrote (a + ib + k) ≡ get_or name k 0
    wrote-name k lt =
        let c = a + ib + k in
        byte_at-flat_write size (page_large sbi d v) wrote_ino (a + ib) stored c
        ∙ elim (Bool-cases (ltb k (length stored))) [
          | inl inside ↦
              let lt' : k < length stored = ground arith in
              let z : c - (a + ib) ≡ k = omega arith in rw z (ground (arith, same k))
          | inr past ↦
              let le : length stored ≤ k = ground arith in
              let old : byte_at size wrote_ino c ≡ 0 =
                byte_at-flat_write_apart size (page_large sbi d v) m a (to_le ib ino) c
                  (inr (omega (arith, length-to_le ib ino)))
                ∙ clear c (omega arith) (omega (arith, v.fits)) in
              ground (arith, old, get_or_past stored k le, same k)
        ]

module _ (prepare : Dir → ℕ → ℕ → ℕ) (dirsync : Dir → ℕ) (page_error : ℕ → ℕ) (sbi : SbInfo)
    (d : Dir) (v : DirOk sbi d) (fresh : v.count ≡ 0) (paged : 2 ≤ v.per_page)
    (three : 3 ≤ sbi.s_namelen) (parent : ℕ) (own_positive : d.i_ino ≢ 0)
    (parent_positive : parent ≢ 0) (own_small : d.i_ino < 256 ^ inode_bytes sbi)
    (parent_small : parent < 256 ^ inode_bytes sbi)
    (ready : prepare d 0 (2 * sbi.s_dirsize) ≡ 0) where
  abbrev ds : ℕ
  ds = sbi.s_dirsize

  abbrev zeroed : Disk
  zeroed = flat_write (page_size d) d.mapping 0 (replicate (page_size d) 0)

  abbrev with_dot : Disk
  with_dot = entry_at sbi d v zeroed 0 d.i_ino (b'.' ∷ 0 ∷ [])

  abbrev with_dotdot : Disk
  with_dotdot = entry_at sbi d v with_dot ds parent (b'.' ∷ b'.' ∷ 0 ∷ [])

  two_fit : ds + ds ≤ page_size d
  two_fit = omega (arith, v.paged, mul-le-mul_right {m = 2} {n = v.per_page} ds paged)

  all_zero : (c : ℕ) → c < ds + ds → byte_at (page_size d) zeroed c ≡ 0
  all_zero c lt =
      byte_at-flat_write (page_size d) (page_large sbi d v) d.mapping 0 (replicate (page_size d) 0)
        c
      ∙ ground (
        arith,
        two_fit,
        length-replicate {A = ℕ} (page_size d) 0,
        get_or-replicate (page_size d) (c - 0),
      )

  dot_fits : inode_bytes sbi + 2 ≤ ds
  dot_fits = omega (arith, v.fits)

  dotdot_fits : inode_bytes sbi + 3 ≤ ds
  dotdot_fits = omega (arith, v.fits)

  still_zero : (c : ℕ) → ds ≤ c → c < ds + ds → byte_at (page_size d) with_dot c ≡ 0
  still_zero c lo hi =
      wrote_outside sbi d v zeroed 0 d.i_ino dot (b'.' ∷ 0 ∷ []) dot_string dot_fits
        (λ k lo' hi'. all_zero k (omega arith)) c (inr (omega arith))
      ∙ all_zero c hi

  abbrev made : Dir
  made = changed d (2 * ds) with_dotdot

  kept : (c : ℕ) → c < ds → byte_at (page_size d) with_dotdot c ≡ byte_at (page_size d) with_dot c
  kept c lt =
      wrote_outside sbi d v with_dot ds parent dotdot (b'.' ∷ b'.' ∷ 0 ∷ []) dotdot_string
        dotdot_fits still_zero c (inl lt)

  made-Dots : Dots sbi made d.i_ino parent
  made-Dots = record {
    well = record {
      per_page = v.per_page;
      count = 2;
      entry_pos = v.entry_pos;
      page_pos = v.page_pos;
      paged = v.paged;
      sized = refl;
      pages = v.pages;
      fits = v.fits;
    };
    two = refl;
    number_0 =
        (let z : 0 * ds ≡ 0 = omega arith in
          ap (λ a. from_le (flat_read (page_size d) with_dotdot a (inode_bytes sbi))) z
          ∙ ap from_le (
              flat_read_congr (page_size d) with_dotdot with_dot 0 (inode_bytes sbi)
                (λ c lo hi. kept c (omega (arith, v.fits))))
          ∙ wrote-number sbi d v zeroed 0 d.i_ino dot (b'.' ∷ 0 ∷ []) dot_string dot_fits
              (λ k lo hi. all_zero k (omega arith)) own_small);
    number_1 =
        (let z : 1 * ds ≡ ds = omega arith in
          ap (λ a. from_le (flat_read (page_size d) with_dotdot a (inode_bytes sbi))) z
          ∙ wrote-number sbi d v with_dot ds parent dotdot (b'.' ∷ b'.' ∷ 0 ∷ []) dotdot_string
              dotdot_fits still_zero parent_small);
    name_0 = λ k lt.
        (let z : 0 * ds + inode_bytes sbi + k ≡ 0 + inode_bytes sbi + k = omega arith in
          ap (byte_at (page_size d) with_dotdot) z
          ∙ kept (0 + inode_bytes sbi + k) (omega (arith, v.fits))
          ∙ wrote-name sbi d v zeroed 0 d.i_ino dot (b'.' ∷ 0 ∷ []) dot_string dot_fits
              (λ k lo hi. all_zero k (omega arith)) k lt);
    name_1 = λ k lt.
        (let z : 1 * ds + inode_bytes sbi + k ≡ ds + inode_bytes sbi + k = omega arith in
          ap (byte_at (page_size d) with_dotdot) z
          ∙ wrote-name sbi d v with_dot ds parent dotdot (b'.' ∷ b'.' ∷ 0 ∷ []) dotdot_string
              dotdot_fits still_zero k lt);
  }

  written :
      put_bytes
        (put_bytes
          (put_bytes
            (put_bytes
              (put_bytes d.mapping 0 0 (replicate (page_size d) 0))
              0
              0
              (to_le (inode_bytes sbi) d.i_ino))
            0
            (inode_bytes sbi)
            (b'.' ∷ 0 ∷ []))
          0
          ds
          (to_le (inode_bytes sbi) parent))
        0
        (ds + inode_bytes sbi)
        (b'.' ∷ b'.' ∷ 0 ∷ [])
      ≡ with_dotdot
  written =
      let ib = inode_bytes sbi in
      let own_bytes = to_le ib d.i_ino in
      let parent_bytes = to_le ib parent in
      let s : List ℕ = b'.' ∷ 0 ∷ [] in
      let s' : List ℕ = b'.' ∷ b'.' ∷ 0 ∷ [] in
      let z : ib ≡ 0 + ib = omega arith in
      let fit = v.fits in
      ap
        (λ m.
          put_bytes (put_bytes (put_bytes (put_bytes m 0 0 own_bytes) 0 ib s) 0 ds parent_bytes) 0
            (ds + ib) s')
        (first_page sbi d v d.mapping 0 (replicate (page_size d) 0)
          (omega (arith, length-replicate {A = ℕ} (page_size d) 0)))
      ∙ ap (λ m. put_bytes (put_bytes (put_bytes m 0 ib s) 0 ds parent_bytes) 0 (ds + ib) s')
          (first_page sbi d v zeroed 0 own_bytes
            (omega (arith, length-to_le ib d.i_ino, two_fit, v.fits)))
      ∙ ap (λ m. put_bytes (put_bytes m 0 ds parent_bytes) 0 (ds + ib) s')
          (first_page sbi d v _ ib s (omega (arith, two_fit, dot_fits))
            ∙ ap (λ o. flat_write (page_size d) (flat_write (page_size d) zeroed 0 own_bytes) o s)
                z)
      ∙ ap (λ m. put_bytes m 0 (ds + ib) s')
          (first_page sbi d v with_dot ds parent_bytes
            (omega (arith, length-to_le ib parent, two_fit, v.fits)))
      ∙ first_page sbi d v _ (ds + ib) s' (omega (arith, two_fit, dotdot_fits))

  -- For a new directory of size 0 with numbers of its own and of its parent that are not 0 and fit
  -- into an entry, entries with room for names of 3 bytes, two of them in a page, and a kernel that
  -- prepares the write, `cominix_make_empty` succeeds up to the sync. Then `.` leads to the
  -- directory's number, `..` to the parent's, `cominix_empty_dir` finds the directory empty, and it
  -- is well formed with different names.
  pub make_empty-IsNew :
      let r = cominix_make_empty prepare dirsync page_error sbi 0 parent d in
      (r.0 ≡ dirsync r.1) × IsNew sbi r.1 d.i_ino parent
  unfolding cominix_make_empty dir_commit_chunk
  make_empty-IsNew =
      let grows : d.i_size < 0 + 2 * ds =
        omega (arith, v.sized, ap (λ n. n * ds) fresh, v.entry_pos) in
      let z : 0 + 2 * ds ≡ 2 * ds = omega arith in
      rw (ready, written, lt→ltb d.i_size (0 + 2 * ds) grows, z)
        (refl, Dots-IsNew sbi made d.i_ino parent made-Dots three own_positive parent_positive refl)
