-- ===== src/Dir/Slots.antt =====
-- A directory of src/dir.c as one row of entries.
use native.Mathlib.Nat.{
  div-add-mod', mod-lt, mul_assoc, add-mul, mul-pos, mul-le-mul_right, mul-div_cancel,
}
use cominix_fs.Prelude.{
  ℕ, ◌+◌, ◌-◌, ◌*◌, ◌/◌, ◌%◌, ◌<◌, ◌≤◌, ◌≡◌, ◌≢◌, sym, ap, ap₂, ◌∙◌, Bool, true, false, inl, inr,
  Option, none, List, arith, Bool-cases, ltb, ltb→lt, ◌==◌, ==_ne, ==_self, if◌then◌else◌, div_of,
  mod_of, pow_pos,
}
use cominix_fs.Dir.{
  Dir, page_size, dir_pages, cominix_last_byte, for_each, for_entries, inode_bytes, inumber, namx,
  namecompare,
}
use cominix_fs.Dir.Loop.{for_each_congr, for_each-add, for_each-nested, for_each_one, or_else}
use cominix_fs.Disk.{flat_read, from_le, byte_at}
use cominix_fs.Disk.Flat.{get_bytes-flat}
use cominix_fs.Fs.{SbInfo}

-- A directory of `count` entries: they fill its pages without a gap, each has room for a number and
-- a name, and every page can be read.
pub record DirOk (sbi : SbInfo) (d : Dir) : Type 0 where
  pub per_page : ℕ
  pub count : ℕ
  pub entry_pos : 0 < sbi.s_dirsize
  pub page_pos : 0 < per_page
  pub paged : page_size d ≡ per_page * sbi.s_dirsize
  pub sized : d.i_size ≡ count * sbi.s_dirsize
  pub pages : (n : ℕ) → d.page_ok n ≡ true
  pub fits : inode_bytes sbi + sbi.s_namelen ≤ sbi.s_dirsize

-- number and name of entry `k`, and whether it is in use under a name
abbrev pub slot_ino : SbInfo → Dir → ℕ → ℕ
slot_ino sbi d k = from_le (flat_read (page_size d) d.mapping (k * sbi.s_dirsize) (inode_bytes sbi))

abbrev pub slot_name : SbInfo → Dir → ℕ → ℕ → ℕ
slot_name sbi d k i = byte_at (page_size d) d.mapping (k * sbi.s_dirsize + inode_bytes sbi + i)

unfoldable pub hit : SbInfo → Dir → List ℕ → ℕ → Bool
hit sbi d name k =
    if slot_ino sbi d k == 0 then false else namecompare sbi.s_namelen name (slot_name sbi d k)

module _ (sbi : SbInfo) (d : Dir) (v : DirOk sbi d) where
  -- page and offset of entry `k`
  abbrev pub place : ℕ → ℕ × ℕ
  place k = (k / v.per_page, k % v.per_page * sbi.s_dirsize)

  abbrev pub full : ℕ
  full = v.count / v.per_page

  abbrev pub rest : ℕ
  rest = v.count % v.per_page

  abbrev ds : ℕ
  ds = sbi.s_dirsize

  pub page_large : 0 < page_size d
  page_large = pow_pos d.page_shift

  -- the address of entry `k` of page `n`
  pub address : (n k : ℕ) → n * page_size d + k * ds ≡ (n * v.per_page + k) * ds
  address n k =
      ap (λ p. n * p + k * ds) v.paged
      ∙ omega (arith, mul_assoc n v.per_page ds, add-mul (n * v.per_page) k ds)

  pub entry_in_page : (k : ℕ) → k < v.per_page → k * ds + ds ≤ page_size d
  entry_in_page k lt = omega (
    arith,
    v.paged,
    mul-le-mul_right {m = k + 1} {n = v.per_page} ds (omega arith),
    add-mul k 1 ds,
  )

  size_split : d.i_size ≡ full * page_size d + rest * ds
  size_split =
      v.sized ∙ ap (λ n. n * ds) (sym (div-add-mod' v.count v.per_page)) ∙ sym (address full rest)

  rest_small : rest * ds + ds ≤ page_size d
  rest_small = entry_in_page rest (mod-lt v.count v.page_pos)

  pub size_div : d.i_size / page_size d ≡ full
  size_div =
      ap (λ n. n / page_size d) size_split
      ∙ div_of (page_size d) page_large full (rest * ds) (omega (arith, rest_small, v.entry_pos))

  size_mod : d.i_size % page_size d ≡ rest * ds
  size_mod =
      ap (λ n. n % page_size d) size_split
      ∙ mod_of (page_size d) page_large full (rest * ds) (omega (arith, rest_small, v.entry_pos))

  pub last_byte_full : (n : ℕ) → n ≢ full → cominix_last_byte d n ≡ page_size d
  unfolding cominix_last_byte
  last_byte_full n ne = rw (==_ne n (d.i_size / page_size d) (λ e. ne (e ∙ size_div)))

  pub last_byte_end : cominix_last_byte d full ≡ rest * ds
  unfolding cominix_last_byte
  last_byte_end = rw (size_div, size_mod, ==_self full)

  pub entries_of_page : page_size d / ds ≡ v.per_page
  entries_of_page = ap (λ n. n / ds) v.paged ∙ mul-div_cancel v.per_page v.entry_pos

  pub pages_full : rest ≡ 0 → dir_pages d ≡ full
  unfolding dir_pages
  pages_full e =
      let s : d.i_size + (page_size d - 1) ≡ full * page_size d + (page_size d - 1) =
        omega (arith, size_split, ap (λ n. n * ds) e) in
      ap (λ n. n / page_size d) s
      ∙ div_of (page_size d) page_large full (page_size d - 1) (omega (arith, page_large))

  pub pages_more : 0 < rest → dir_pages d ≡ full + 1
  unfolding dir_pages
  pages_more h =
      let r = mul-pos {m = rest} {n = ds} h v.entry_pos in
      let s : d.i_size + (page_size d - 1) ≡ (full + 1) * page_size d + (rest * ds - 1) =
        omega (arith, size_split, r, page_large, add-mul full 1 (page_size d)) in
      ap (λ n. n / page_size d) s
      ∙ div_of (page_size d) page_large (full + 1) (rest * ds - 1)
          (omega (arith, rest_small, v.entry_pos, r))

  module _ {R : Type 0} (f : ℕ → ℕ → Option R) (g : ℕ → Option R)
      (same : (n k : ℕ) → k < v.per_page → f n (k * sbi.s_dirsize) ≡ g (n * v.per_page + k)) where
    abbrev body : ℕ → Option R
    body n =
        if d.page_ok n then for_each (cominix_last_byte d n / ds) 0 (λ k. f n (k * ds)) else none

    body_rounds :
        (n r : ℕ)
        → cominix_last_byte d n / ds ≡ r
        → r ≤ v.per_page
        → body n ≡ for_each r 0 (λ k. g (n * v.per_page + k))
    body_rounds n r e le =
        rw (v.pages n, e)
          (for_each_congr r 0 0 (λ k. f n (k * ds)) (λ k. g (n * v.per_page + k))
            λ k lt. let z : 0 + k ≡ k = omega arith in rw z (same n k (omega arith)))

    full_pages : for_each full 0 body ≡ for_each (full * v.per_page) 0 g
    full_pages =
        let z : 0 * v.per_page ≡ 0 = omega arith in
        for_each_congr full 0 0 body (λ n. for_each v.per_page 0 (λ k. g (n * v.per_page + k)))
          (λ n lt.
            let z' : 0 + n ≡ n = omega arith in
            rw z' (
              body_rounds n v.per_page
                (ap (λ b. b / ds) (last_byte_full n (λ e. omega arith)) ∙ entries_of_page)
                (omega arith)))
        ∙ for_each-nested full v.per_page 0 g
        ∙ ap (λ i. for_each (full * v.per_page) i g) z

    last_page : for_each 1 full body ≡ for_each rest (full * v.per_page) g
    last_page =
        for_each_one full body
        ∙ body_rounds full rest (ap (λ b. b / ds) last_byte_end ∙ mul-div_cancel rest v.entry_pos)
            (omega (arith, mod-lt v.count v.page_pos))
        ∙ for_each_congr rest 0 (full * v.per_page) (λ k. g (full * v.per_page + k)) g
            (λ k lt. let z : 0 + k ≡ k = omega arith in ap (λ n. g (full * v.per_page + n)) z)

    -- The loop over pages and their entries is the loop over all entries.
    pub for_entries-slots : for_entries sbi d f ≡ for_each v.count 0 g
    unfolding for_entries
    for_entries-slots =
        let split = div-add-mod' v.count v.per_page in
        elim (Bool-cases (ltb 0 rest)) [
          | inl more ↦
              let lt : 0 < rest = ltb→lt 0 rest more in
              let z : 0 + full ≡ full = omega arith in
              let z' : 0 + full * v.per_page ≡ full * v.per_page = omega arith in
              ap (λ n. for_each n 0 body) (pages_more lt)
              ∙ for_each-add full 1 0 body
              ∙ ap₂ or_else full_pages
                  (ap (λ n. for_each 1 n body) z ∙ last_page ∙ ap (λ n. for_each rest n g) (sym z'))
              ∙ sym (for_each-add (full * v.per_page) rest 0 g)
              ∙ ap (λ n. for_each n 0 g) split
          | inr none_left ↦
              let e : rest ≡ 0 = ground arith in
              let whole : full * v.per_page ≡ v.count = omega (arith, split) in
              ap (λ n. for_each n 0 body) (pages_full e)
              ∙ full_pages
              ∙ ap (λ n. for_each n 0 g) whole
        ]

  -- Number and name of entry `k` of page `n`.
  pub inumber-slot :
      (n k : ℕ)
      → k < v.per_page
      → inumber sbi d n (k * sbi.s_dirsize) ≡ slot_ino sbi d (n * v.per_page + k)
  unfolding inumber
  inumber-slot n k lt = ap from_le (
      get_bytes-flat (page_size d) page_large d.mapping n (k * ds) (inode_bytes sbi)
        (omega (arith, entry_in_page k lt, v.fits))
      ∙ ap (λ a. flat_read (page_size d) d.mapping a (inode_bytes sbi)) (address n k))

  pub namx-slot :
      (n k i : ℕ)
      → k < v.per_page
      → inode_bytes sbi + i < sbi.s_dirsize
      → namx sbi d n (k * sbi.s_dirsize) i ≡ slot_name sbi d (n * v.per_page + k) i
  unfolding namx byte_at
  namx-slot n k i lt h =
      let o = k * ds + inode_bytes sbi + i in
      let inside : o < page_size d = omega (arith, entry_in_page k lt) in
      let a : n * page_size d + o ≡ (n * v.per_page + k) * ds + inode_bytes sbi + i =
        omega (arith, address n k) in
      ap₂ d.mapping (sym (div_of (page_size d) page_large n o inside))
        (sym (mod_of (page_size d) page_large n o inside))
      ∙ ap (λ b. d.mapping (b / page_size d) (b % page_size d)) a
