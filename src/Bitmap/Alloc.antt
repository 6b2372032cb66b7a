-- ===== src/Bitmap/Alloc.antt =====
-- `cominix_new_block` of src/bitmap.c.
use native.Mathlib.Nat.{mul-le-mul_left}
use mathlib.Core.Bool.{false≢true}
use cominix_fs.Prelude.{
  ℕ, zero, suc, ◌+◌, ◌-◌, ◌*◌, ◌%◌, ◌^◌, ◌<◌, ◌≤◌, ◌≡◌, refl, sym, ap, ◌∙◌, Bool, true, false, ◌⊎◌,
  inl, inr, List, arith, ◌==◌, ltb, ltb→lt, if◌then◌else◌, Bool-cases, length, length-set, get_or,
  get_elem?-get_or, pow_pos, div_of, mod_of,
}
use cominix_fs.BitOps.{BitOps}
use cominix_fs.Fs.{Bits, Fs, ok, Run}
use cominix_fs.Bitmap.{
  bits_per_zone, map_at, out_of_zones, new_block_loop, cominix_new_block_sb, cominix_new_block,
}
use cominix_fs.Bitmap.Maps.{bit_at, mark, bit_at-mark}

-- bit `n` of the zone bitmap
abbrev pub busy : Fs → ℕ → Bool
busy s n = bit_at (bits_per_zone s) s.s_zmap n

-- the number of bits that the zone bitmap has
abbrev pub zmap_bits : Fs → ℕ
zmap_bits s = length s.s_zmap * bits_per_zone s

pub map_at-get_or :
    (maps : List Bits) (i : ℕ) (s : Fs)
    → i < length maps
    → map_at maps i s ≡ ok (get_or maps i (λ _. true)) s
unfolding map_at
map_at-get_or maps i s h = rw (map_at, get_elem?-get_or maps i (λ _. true) h)

module _ (ops : BitOps) (s : Fs) where
  abbrev pub marked : ℕ → Fs
  marked n = record s { s_zmap = mark ops (bits_per_zone s) s.s_zmap n }

  -- what the source returns for bit `n`
  pub zone_of : ℕ → ℕ
  zone_of n =
      let zone = (n + s.sb.s_firstdatazone - 1) % 2 ^ 32 in if out_of_zones s zone then 0 else zone

  pub w_pos : 0 < bits_per_zone s
  w_pos = omega (arith, pow_pos s.s_blocksize_bits)

  -- The loop from block `i` on, where all bits before are busy: it marks the lowest free bit, or
  -- there is none and it changes nothing.
  abbrev Outcome : Run ℕ → Type 0
  Outcome run =
      ((n : ℕ) × (n < zmap_bits s)
        × (busy s n ≡ false)
        × ((k : ℕ) → k < n → busy s k ≡ true)
        × (run ≡ ok (zone_of n) (marked n)))
      ⊎ (((k : ℕ) → k < zmap_bits s → busy s k ≡ true) × (run ≡ ok 0 s))

  pub busy_at :
      (i j : ℕ)
      → j < bits_per_zone s
      → busy s (i * bits_per_zone s + j) ≡ get_or s.s_zmap i (λ _. true) j
  unfolding bit_at
  busy_at i j h = rw (div_of (bits_per_zone s) w_pos i j h, mod_of (bits_per_zone s) w_pos i j h)

  -- the bits of block `i` below its first zero are busy, if those of the blocks before are
  pub busy_up_to :
      (i f : ℕ)
      → ((k : ℕ) → k < i * bits_per_zone s → busy s k ≡ true)
      → ((j : ℕ) → j < f → get_or s.s_zmap i (λ _. true) j ≡ true)
      → f ≤ bits_per_zone s
      → (k : ℕ) → k < i * bits_per_zone s + f
      → busy s k ≡ true
  busy_up_to i f before here le k h = elim (Bool-cases (ltb k (i * bits_per_zone s))) [
    | inl e ↦ before k (ltb→lt k (i * bits_per_zone s) e)
    | inr e ↦
        let w = bits_per_zone s in
        let above : i * w ≤ k = ground arith in
        let split : k ≡ i * w + (k - i * w) = omega arith in
        ap (busy s) split ∙ busy_at i (k - i * w) (omega arith) ∙ here (k - i * w) (omega arith)
  ]

  new_block_loop-Outcome :
      (rounds i : ℕ)
      → i + rounds ≡ length s.s_zmap
      → ((k : ℕ) → k < i * bits_per_zone s → busy s k ≡ true)
      → Outcome (new_block_loop ops rounds i s)
  unfolding new_block_loop zone_of
  new_block_loop-Outcome zero i e before = inr (λ k h. before k (grind arith), refl)
  new_block_loop-Outcome (suc rounds) i e before =
      let w = bits_per_zone s in
      let b = get_or s.s_zmap i (λ _. true) in
      let f = ops.find_first_zero_bit b w in
      let lower = busy_up_to i f before (λ j h. ops.find-first b w j h) (ops.find-le b w) in
      let inside : (i + 1) * w ≤ zmap_bits s =
        omega (arith, mul-le-mul_left {m = i + 1} {n = length s.s_zmap} w (omega arith)) in
      rw (map_at-get_or s.s_zmap i s (omega arith)) (elim (Bool-cases (ltb f w)) [
        | inl found ↦
            let lt : f < w = ltb→lt f w found in
            inl (
              i * w + f,
              omega arith,
              busy_at i f lt ∙ ops.find-clear b w lt,
              lower,
              let order : f + i * w ≡ i * w + f = omega arith in
                  rw (found, order, div_of w w_pos i f lt, mod_of w w_pos i f lt),
            )
        | inr none ↦
            let above : w ≤ f = ground arith in
            let all : f ≡ w = omega (arith, ops.find-le b w) in
            rw none
              (new_block_loop-Outcome rounds (i + 1) (omega arith) (λ k h. lower k (omega arith)))
      ])

-- The zone maps as `cominix_fill_super` leaves them: as many blocks as the super block says, bit 0
-- taken, and zone numbers that fit into an `int`.
pub record ZmapOk (s : Fs) : Type 0 where
  pub sized : length s.s_zmap ≡ s.sb.s_zmap_blocks
  pub zero_taken : busy s 0 ≡ true
  pub first_pos : 0 < s.sb.s_firstdatazone
  pub enough : s.sb.s_nzones + 1 ≤ zmap_bits s + s.sb.s_firstdatazone
  pub small : zmap_bits s + s.sb.s_firstdatazone < 2 ^ 31

-- A zone of the data area is free.
abbrev pub IsFree : Fs → ℕ → Type 0
IsFree s z =
    (s.sb.s_firstdatazone ≤ z)
    × (z < s.sb.s_nzones)
    × (busy s (z - s.sb.s_firstdatazone + 1) ≡ false)

module _ (ops : BitOps) (s : Fs) (v : ZmapOk s) where
  zone_small :
      (n : ℕ)
      → n < zmap_bits s
      → (n + s.sb.s_firstdatazone - 1) % 2 ^ 32 ≡ n + s.sb.s_firstdatazone - 1
  zone_small n h = omega (arith, v.small)

  -- A bit other than 0 stands for the zone behind the first data zone.
  pub zone_of-eq :
      (n : ℕ)
      → n < zmap_bits s
      → 0 < n
      → zone_of ops s n ≡ (
          if ltb (n + s.sb.s_firstdatazone - 1) s.sb.s_nzones
          then n + s.sb.s_firstdatazone - 1
          else 0)
  unfolding zone_of out_of_zones
  zone_of-eq n h pos = rw (zone_small n h) (ground (arith, v.small, v.first_pos))

  free_bit_pos : (n : ℕ) → busy s n ≡ false → 0 < n
  free_bit_pos zero e = absurd (cc (v.zero_taken))
  free_bit_pos (suc n) e = omega arith

  abbrev pub bit_of : ℕ → ℕ
  bit_of z = z - s.sb.s_firstdatazone + 1

  -- What an allocation returns: the lowest free zone, whose bit alone is set; or 0, when no zone of
  -- the data area is free.
  abbrev pub Taken : ℕ → Fs → Type 0
  Taken r s' =
      (IsFree s r
        × ((z : ℕ) → IsFree s z → r ≤ z)
        × ((k : ℕ) → busy s' k ≡ (if bit_of r == k then true else busy s k)))
      ⊎ ((r ≡ 0) × ((z : ℕ) → IsFree s z → ⊥))

  marked_Taken :
      (n : ℕ)
      → n < zmap_bits s
      → busy s n ≡ false
      → ((k : ℕ) → k < n → busy s k ≡ true)
      → Taken (zone_of ops s n) (marked ops s n)
  marked_Taken n h free lowest =
      let z = n + s.sb.s_firstdatazone - 1 in
      let pos = free_bit_pos n free in
      let bit : bit_of z ≡ n = omega (arith, v.first_pos) in
      -- a free zone's bit is `n` or above
      let above : (y : ℕ) → IsFree s y → n ≤ bit_of y = λ y (_, _, f).
        elim (Bool-cases (ltb (bit_of y) n)) [
          | inl e ↦ absurd (false≢true (sym f ∙ lowest (bit_of y) (ltb→lt (bit_of y) n e)))
          | inr e ↦ ground arith
        ] in
      rw (zone_of-eq n h pos) (elim (Bool-cases (ltb z s.sb.s_nzones)) [
        | inl e ↦ rw e (
            inl (
              (omega arith, ltb→lt z s.sb.s_nzones e, ap (busy s) bit ∙ free),
              (λ y f. omega (arith, above y f, f.0)),
              λ k. rw bit (bit_at-mark ops (bits_per_zone s) (w_pos ops s) s.s_zmap n k h),
            ))
        | inr e ↦ rw e (
            inr (
              refl,
              λ y f.
                  let high : s.sb.s_nzones ≤ z = ground arith in omega (arith, above y f, f.0, f.1),
            ))
      ])

  -- Beside that, only the zone maps changed, they are still well formed, and no bit was cleared.
  pub record NewBlock (r : ℕ) (s' : Fs) : Type 0 where
    pub taken : Taken r s'
    pub only_zmap : s' ≡ record s { s_zmap = s'.s_zmap }
    pub valid : ZmapOk s'
    pub keeps : (k : ℕ) → busy s k ≡ true → busy s' k ≡ true

  marked_NewBlock :
      (n : ℕ)
      → n < zmap_bits s
      → busy s n ≡ false
      → ((k : ℕ) → k < n → busy s k ≡ true)
      → NewBlock (zone_of ops s n) (marked ops s n)
  marked_NewBlock n h free lowest =
      let same : length (marked ops s n).s_zmap ≡ length s.s_zmap = length-set s.s_zmap _ _ in
      let keeps : (k : ℕ) → busy s k ≡ true → busy (marked ops s n) k ≡ true =
        λ k b. bit_at-mark ops (bits_per_zone s) (w_pos ops s) s.s_zmap n k h ∙ ground arith in
      record {
        taken = marked_Taken n h free lowest;
        only_zmap = refl;
        valid = record {
          sized = same ∙ v.sized;
          zero_taken = keeps 0 v.zero_taken;
          first_pos = v.first_pos;
          enough = rw same v.enough;
          small = rw same v.small;
        };
        keeps = keeps;
      }

  -- On well-formed zone maps `cominix_new_block` ends without a fault. It returns the lowest free
  -- zone of the data area and sets its bit and no other, or it returns 0 and no zone of the data
  -- area was free. Only the zone maps change, they stay well formed, and no bit is cleared.
  pub cominix_new_block-NewBlock :
      (r : ℕ) × (s' : Fs) × (cominix_new_block ops s ≡ ok r s') × NewBlock r s'
  unfolding cominix_new_block
  cominix_new_block-NewBlock =
      elim (new_block_loop-Outcome ops s s.sb.s_zmap_blocks 0 (omega (arith, v.sized))
        (λ k h. absurd (omega arith))) [
          | inl (n, h, free, lowest, run) ↦
              (zone_of ops s n, marked ops s n, run, marked_NewBlock n h free lowest)
          | inr (all, run) ↦ (
            0,
            s,
            run,
            record {
              taken = inr (
                refl,
                λ z (lo, hi, free).
                    absurd (false≢true (sym free ∙ all (bit_of z) (omega (arith, v.enough)))),
              );
              only_zmap = refl;
              valid = v;
              keeps = λ k b. b;
            },
          )
        ]

  -- the same for the copy of the function that takes the super block
  pub cominix_new_block_sb-eq : cominix_new_block_sb ops s ≡ cominix_new_block ops s
  unfolding cominix_new_block cominix_new_block_sb
  cominix_new_block_sb-eq = refl
