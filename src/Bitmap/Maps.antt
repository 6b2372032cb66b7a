-- ===== src/Bitmap/Maps.antt =====
-- The blocks of a bitmap as one row of bits.
use native.Mathlib.Nat.{div-lt_iff_lt-mul}
use cominix_fs.Prelude.{
  ℕ, ◌*◌, ◌/◌, ◌%◌, ◌<◌, ◌≡◌, ap, Bool, true, false, List, arith, ◌==◌, ==_iff, if◌then◌else◌,
  Bool-cases, inl, inr, length, get_or, set, get_or-set_self, get_or-set_other, div_mod_inj,
}
use cominix_fs.BitOps.{BitOps}
use cominix_fs.Fs.{Bits}

-- Bit `n` of the row, with `w` bits in a block. A bit outside the map counts as busy.
unfoldable pub bit_at : ℕ → List Bits → ℕ → Bool
bit_at w maps n = get_or maps (n / w) (λ _. true) (n % w)

module _ (ops : BitOps) (w : ℕ) where
  -- the map after an operation on bit `n`
  abbrev pub mark : List Bits → ℕ → List Bits
  mark maps n = set maps (n / w) (ops.set_bit (n % w) (get_or maps (n / w) (λ _. true)))

  abbrev pub unmark : List Bits → ℕ → List Bits
  unmark maps n = set maps (n / w) (ops.clear_bit (n % w) (get_or maps (n / w) (λ _. true)))

module _ (ops : BitOps) (w : ℕ) (pos : 0 < w) where
  pub block_lt : (maps : List Bits) (n : ℕ) → n < length maps * w → n / w < length maps
  block_lt maps n h = (div-lt_iff_lt-mul {x = n} {y = length maps} pos).1 h

  -- setting a bit sets that bit and no other
  pub bit_at-mark :
      (maps : List Bits) (n k : ℕ)
      → n < length maps * w
      → bit_at w (mark ops w maps n) k ≡ (if n == k then true else bit_at w maps k)
  unfolding bit_at
  bit_at-mark maps n k h = elim (Bool-cases (n / w == k / w)) [
    | inl e ↦
        let same : n / w ≡ k / w = (==_iff (n / w) (k / w)).0 e in
        rw (← same, get_or-set_self maps (n / w) _ (λ _. true) (block_lt maps n h), ops.set_bit_lem)
          (ground (arith, div_mod_inj w pos n k))
    | inr e ↦
        rw (get_or-set_other maps (n / w) (k / w) _ (λ _. true) (λ z. absurd (ground arith)))
          (ground (arith, ap (λ (a : ℕ). a / w) {x = n} {y = k}))
  ]

  pub bit_at-unmark :
      (maps : List Bits) (n k : ℕ)
      → n < length maps * w
      → bit_at w (unmark ops w maps n) k ≡ (if n == k then false else bit_at w maps k)
  unfolding bit_at
  bit_at-unmark maps n k h = elim (Bool-cases (n / w == k / w)) [
    | inl e ↦
        let same : n / w ≡ k / w = (==_iff (n / w) (k / w)).0 e in
        rw
          (
            ← same,
            get_or-set_self maps (n / w) _ (λ _. true) (block_lt maps n h),
            ops.clear_bit_lem,
          )
          (ground (arith, div_mod_inj w pos n k))
    | inr e ↦
        rw (get_or-set_other maps (n / w) (k / w) _ (λ _. true) (λ z. absurd (ground arith)))
          (ground (arith, ap (λ (a : ℕ). a / w) {x = n} {y = k}))
  ]
