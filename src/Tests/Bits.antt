-- ===== src/Tests/Bits.antt =====
-- Bit operations on the bits of a block as a function of their number: they meet the laws.
use cominix_fs.Prelude.{
  ℕ, zero, suc, ◌+◌, ◌*◌, ◌<◌, ◌≤◌, ◌≡◌, refl, true, false, arith, ◌==◌, if◌then◌else◌, Bool-cases,
  inl, inr, ap,
}
use cominix_fs.BitOps.{BitOps, weight}
use cominix_fs.Fs.{Bits}

pub first_zero : Bits → ℕ → ℕ → ℕ
first_zero b k zero = k
first_zero b k (suc n) = let rest = first_zero b (k + 1) n in if b k then rest else k

first_zero_lem : (b : Bits) (k n : ℕ) → (k ≤ first_zero b k n) × (first_zero b k n ≤ k + n)
unfolding first_zero
first_zero_lem b k zero = omega arith
first_zero_lem b k (suc n) = ground (arith, first_zero_lem b (k + 1) n)

first_zero-clear : (b : Bits) (k n : ℕ) → first_zero b k n < k + n → b (first_zero b k n) ≡ false
unfolding first_zero
first_zero-clear b k zero h = absurd (omega arith)
first_zero-clear b k (suc n) h = elim (Bool-cases (b k)) [
  | inl e ↦ rw e (first_zero-clear b (k + 1) n (ground arith))
  | inr e ↦ rw e e
]

first_zero-first : (b : Bits) (k n j : ℕ) → k ≤ j → j < first_zero b k n → b j ≡ true
unfolding first_zero
first_zero-first b k zero j lo h = absurd (omega arith)
first_zero-first b k (suc n) j lo h =
    ground (arith, first_zero-first b (k + 1) n j, ap b {x = k} {y = j})

pub find-le : (b : Bits) (n : ℕ) → first_zero b 0 n ≤ n
find-le b n = omega (arith, first_zero_lem b 0 n)

pub find-clear : (b : Bits) (n : ℕ) → first_zero b 0 n < n → b (first_zero b 0 n) ≡ false
find-clear b n h = first_zero-clear b 0 n (omega arith)

pub find-first : (b : Bits) (n k : ℕ) → k < first_zero b 0 n → b k ≡ true
find-first b n k h = first_zero-first b 0 n k (omega arith) h

abbrev pub bit_ops : BitOps
unfolding first_zero
bit_ops = record {
  find_first_zero_bit = λ b n. first_zero b 0 n;
  set_bit = λ k b j. if k == j then true else b j;
  clear_bit = λ k b j. if k == j then false else b j;
  hweight16 = λ b w. weight b (16 * w) 16;
  find-le = find-le;
  find-clear = find-clear;
  find-first = find-first;
  set_bit_lem = λ b k j. refl;
  clear_bit_lem = λ b k j. refl;
  hweight16_lem = λ b w. refl;
}
