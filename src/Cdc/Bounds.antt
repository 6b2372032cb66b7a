-- ===== src/Cdc/Bounds.antt =====
-- The two loops of `cdc_get_chunk_size` of src/cdc.h, as one scan.
use Prim.Native.Nat.{bit_and}
use cominix_fs.Prelude.{
  ℕ, zero, suc, ◌+◌, ◌-◌, ◌%◌, ◌^◌, ◌<◌, ◌≤◌, ◌≡◌, refl, sym, ap, ◌∙◌, ◌⊎◌, inl, inr, arith, leb,
  ◌==◌, if◌then◌else◌, Bool-cases, leb→le, le→leb, lt→leb,
}
use cominix_fs.Cdc.{
  ReadByte, Scan, go_on, mask, min_size, max_size, normal_size, roll, scan, second, returned,
  cdc_get_chunk_size,
}

-- the state in which the scan starts
abbrev pub begin : ℕ → Scan
begin pos = record { pos = pos + min_size; fp = 0; b = 0 }

-- the bytes that a chunk can take: what is left of the file, `max_size` at most
abbrev pub room : ℕ → ℕ
room n = if leb max_size n then max_size else n

module _ (kernel_read : ReadByte) where
  -- a scan that falls through has used its rounds
  go_on_index :
      (rounds i : ℕ) (c : Scan) (j : ℕ) (d : Scan)
      → scan kernel_read rounds i c ≡ go_on j d
      → j ≡ i + rounds
  unfolding scan
  go_on_index zero i c j d e = ground arith
  go_on_index (suc rounds) i c j d e =
      ground (arith, go_on_index rounds (i + 1) (roll kernel_read c) j d)

  -- a scan of `m + r` rounds is one of `m` rounds and, if it falls through, one of `r`
  scan-second :
      (m r i : ℕ) (c : Scan)
      → second kernel_read (i + m + r) (scan kernel_read m i c) ≡ scan kernel_read (m + r) i c
  unfolding scan second
  scan-second zero r i c =
      let e : i + 0 + r - i ≡ r = omega arith in let e' : 0 + r ≡ r = omega arith in rw (e, e')
  scan-second (suc m) r i c =
      let e : i + suc m + r ≡ i + 1 + m + r = omega arith in
      let e' : suc m + r ≡ suc (m + r) = omega arith in
      rw (e, e')
        (elim (Bool-cases (bit_and (roll kernel_read c).fp mask == 0)) [
          | inl stop ↦ rw stop
          | inr more ↦ rw more (scan-second m r (i + 1) (roll kernel_read c))
        ])

  scan_bounds :
      (rounds i : ℕ) (c : Scan)
      → (i ≤ returned (scan kernel_read rounds i c))
        × (returned (scan kernel_read rounds i c) ≤ i + rounds)
  unfolding scan
  scan_bounds zero i c = omega arith
  scan_bounds (suc rounds) i c = ground (arith, scan_bounds rounds (i + 1) (roll kernel_read c))

  two_loops :
      (m bound : ℕ) (c : Scan)
      → min_size + m ≤ bound
      → second kernel_read bound (scan kernel_read m min_size c)
        ≡ scan kernel_read (bound - min_size) min_size c
  two_loops m bound c h =
      let r = bound - min_size - m in
      let e : min_size + m + r ≡ bound = omega arith in
      let e' : m + r ≡ bound - min_size = omega arith in
      ap (λ n. second kernel_read n (scan kernel_read m min_size c)) (sym e)
      ∙ scan-second m r min_size c
      ∙ ap (λ n. scan kernel_read n min_size c) e'

  module _ (i_size pos : ℕ) (inside : pos < i_size) (small : i_size < 2 ^ 63) where
    left_lem : (i_size + 2 ^ 64 - pos) % 2 ^ 64 ≡ i_size - pos
    left_lem = omega arith

    pub cdc-short :
        i_size - pos ≤ min_size → cdc_get_chunk_size kernel_read i_size pos ≡ i_size - pos
    unfolding cdc_get_chunk_size
    cdc-short h = rw (left_lem, le→leb (i_size - pos) min_size h)

    -- past the smallest size the two loops are one scan over the room
    pub cdc-scan :
        min_size < i_size - pos
        → cdc_get_chunk_size kernel_read i_size pos
          ≡ returned (scan kernel_read (room (i_size - pos) - min_size) min_size (begin pos))
    unfolding cdc_get_chunk_size
    cdc-scan h =
        let n = i_size - pos in
        let normal =
          (if leb max_size n
            then normal_size
            else (if leb n normal_size then n else normal_size)) in
        rw (left_lem, lt→leb (i_size - pos) min_size h)
          (ap returned (two_loops (normal - min_size) (room n) (begin pos) (ground arith)))

    -- At a position inside a file whose size fits into 63 bits, a chunk is not empty, ends within
    -- the file, has at most 64 KB, and has at least 2 KB unless it takes all that is left of the
    -- file.
    pub cdc_get_chunk_size_bounds :
        let r = cdc_get_chunk_size kernel_read i_size pos in
        (0 < r) × (r ≤ i_size - pos) × (r ≤ max_size) × ((min_size ≤ r) ⊎ (r ≡ i_size - pos))
    cdc_get_chunk_size_bounds = elim (Bool-cases (leb (i_size - pos) min_size)) [
      | inl short ↦
          rw (cdc-short (leb→le (i_size - pos) min_size short)) (
            omega arith,
            omega arith,
            omega (arith, leb→le (i_size - pos) min_size short),
            inr refl,
          )
      | inr long ↦
          let more : min_size < i_size - pos = ground arith in
          let (lo, hi) = scan_bounds (room (i_size - pos) - min_size) min_size (begin pos) in
          rw (cdc-scan more) (omega arith, ground arith, ground arith, inl lo)
    ]
