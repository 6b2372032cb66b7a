-- ===== src/Bitmap/Free.antt =====
-- `cominix_free_block` of src/bitmap.c.
use cominix_fs.Prelude.{
  ℕ, ◌+◌, ◌-◌, ◌/◌, ◌^◌, ◌<◌, ◌≤◌, ◌≡◌, ap, ◌∙◌, false, arith, ◌==◌, le→ltb, lt→leb, if◌then◌else◌,
  length, pow_add, inl, inr,
}
use cominix_fs.BitOps.{BitOps}
use cominix_fs.Fs.{Fs, SbInfo, ok, ◌>>=◌}
use cominix_fs.Bitmap.{bits_per_zone, cominix_free_block, cominix_new_block}
use cominix_fs.Bitmap.Maps.{unmark, bit_at-unmark, block_lt}
use cominix_fs.Bitmap.Alloc.{ZmapOk, IsFree, busy, map_at-get_or, w_pos, cominix_new_block-NewBlock}

module _ (ops : BitOps) (s : Fs) where
  abbrev pub unmarked : ℕ → Fs
  unmarked n = record s { s_zmap = unmark ops (bits_per_zone s) s.s_zmap n }

  -- the mask of `s_blocksize_bits + 3` bits is the number of bits in a map block
  width : 2 ^ (s.s_blocksize_bits + 3) ≡ bits_per_zone s
  width = omega (arith, pow_add s.s_blocksize_bits 3)

  pub free_block-run :
      (z : ℕ)
      → ZmapOk s
      → s.sb.s_firstdatazone ≤ z
      → z < s.sb.s_nzones
      → cominix_free_block ops z s ≡ ok tt (unmarked (z - s.sb.s_firstdatazone + 1))
  unfolding cominix_free_block
  free_block-run z v lo hi =
      let n = z - s.sb.s_firstdatazone + 1 in
      let within : n / bits_per_zone s < length s.s_zmap =
        block_lt ops (bits_per_zone s) (w_pos ops s) s.s_zmap n (omega (arith, v.enough)) in
      rw (
        le→ltb z s.sb.s_firstdatazone lo,
        lt→leb s.sb.s_nzones z hi,
        width,
        lt→leb s.sb.s_zmap_blocks (n / bits_per_zone s) (omega (arith, v.sized)),
        map_at-get_or s.s_zmap (n / bits_per_zone s) s within,
      )

  -- On well-formed zone maps, freeing a zone of the data area clears its bit and no other.
  pub cominix_free_block_lem :
      (z : ℕ)
      → ZmapOk s
      → s.sb.s_firstdatazone ≤ z
      → z < s.sb.s_nzones
      → (s' : Fs) × (cominix_free_block ops z s ≡ ok tt s')
        × ((k : ℕ) → busy s' k ≡ (if z - s.sb.s_firstdatazone + 1 == k then false else busy s k))
  cominix_free_block_lem z v lo hi =
      let n = z - s.sb.s_firstdatazone + 1 in
      (
        unmarked n,
        free_block-run z v lo hi,
        λ k.
            bit_at-unmark ops (bits_per_zone s) (w_pos ops s) s.s_zmap n k
              (omega (arith, v.enough)),
      )

-- On well-formed zone maps with a free zone in the data area, allocating a zone and freeing it
-- again ends without a fault and leaves every bit as it was.
pub free_block-new_block :
    (ops : BitOps) (s : Fs) (z : ℕ)
    → ZmapOk s
    → IsFree s z
    → (s'' : Fs) × ((cominix_new_block ops >>= cominix_free_block ops) s ≡ ok tt s'')
      × ((k : ℕ) → busy s'' k ≡ busy s k)
free_block-new_block ops s z v free =
    let (r, s', run, new) = cominix_new_block-NewBlock ops s v in
    let same : s'.sb ≡ s.sb = ap (λ (x : Fs). x.sb) new.only_zmap in
    let first : s'.sb.s_firstdatazone ≡ s.sb.s_firstdatazone =
      ap (λ (b : SbInfo). b.s_firstdatazone) same in
    let zones : s'.sb.s_nzones ≡ s.sb.s_nzones = ap (λ (b : SbInfo). b.s_nzones) same in
    elim new.taken [
      | inr (none, full) ↦ absurd (full z free)
      | inl ((lo, hi, was_free), lowest, set) ↦
          let (s'', run', cleared) =
            cominix_free_block_lem ops s' r new.valid (omega arith) (omega arith) in
          (
            s'',
            rw run run',
            λ k.
                cleared k
                ∙ rw first (
                    rw (set k)
                      (ground (arith, ap (busy s) {x = r - s.sb.s_firstdatazone + 1} {y = k}))),
          )
    ]
