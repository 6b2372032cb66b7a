-- ===== src/BitOps.antt =====
-- The kernel's operations on the bits of a bitmap block, which src/bitmap.c calls: a parameter of
-- the model, with their documented behaviour as laws.
use cominix_fs.Prelude.{ℕ, zero, suc, ◌+◌, ◌*◌, ◌<◌, ◌≤◌, ◌≡◌, true, false, ◌==◌, if◌then◌else◌}
use cominix_fs.Fs.{Bits}

-- the number of bits that are set among the `n` from bit `k` on
unfoldable pub weight : Bits → ℕ → ℕ → ℕ
weight b k zero = 0
weight b k (suc n) = (if b k then 1 else 0) + weight b (k + 1) n

-- `hweight16` is given the word with number `w` of a block.
pub record BitOps : Type 0 where
  pub find_first_zero_bit : Bits → ℕ → ℕ
  pub set_bit : ℕ → Bits → Bits
  pub clear_bit : ℕ → Bits → Bits
  pub hweight16 : Bits → ℕ → ℕ
  pub find-le : (b : Bits) (n : ℕ) → find_first_zero_bit b n ≤ n
  pub find-clear :
      (b : Bits) (n : ℕ) → find_first_zero_bit b n < n → b (find_first_zero_bit b n) ≡ false
  pub find-first : (b : Bits) (n k : ℕ) → k < find_first_zero_bit b n → b k ≡ true
  pub set_bit_lem : (b : Bits) (k j : ℕ) → set_bit k b j ≡ (if k == j then true else b j)
  pub clear_bit_lem : (b : Bits) (k j : ℕ) → clear_bit k b j ≡ (if k == j then false else b j)
  pub hweight16_lem : (b : Bits) (w : ℕ) → hweight16 b w ≡ weight b (16 * w) 16
