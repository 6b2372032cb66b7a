-- ===== src/Prelude/Arith.antt =====
-- Powers of two, and addresses split into a block number and an offset.
use Prim.Native.Nat.{ℕ, zero, suc, ◌+◌, ◌*◌, ◌/◌, ◌%◌, ◌^◌, ◌<◌, ◌≤◌}
use mathlib.Core.Path.{◌≡◌}
use native.Mathlib.Omega.{arith}
use native.Mathlib.Nat.{pow-suc, div-add-mod', mod-lt, div-lt_iff_lt-mul}

pub pow_add : (a b : ℕ) → 2 ^ (a + b) ≡ 2 ^ a * 2 ^ b
pow_add zero b = let e : 0 + b ≡ b = omega arith in rw e (omega arith)
pow_add (suc a) b =
    let e : suc a + b ≡ suc (a + b) = omega arith in
    rw (e, pow-suc 2 (a + b), pow-suc 2 a) (omega (arith, pow_add a b))

pub pow_pos : (a : ℕ) → 0 < 2 ^ a
pow_pos zero = omega arith
pow_pos (suc a) = omega (arith, pow_pos a, pow-suc 2 a)

module _ (n : ℕ) (pos : 0 < n) where
  pub div_of : (q r : ℕ) → r < n → (q * n + r) / n ≡ q
  div_of q r h = grind arith

  pub mod_of : (q r : ℕ) → r < n → (q * n + r) % n ≡ r
  mod_of q r h = grind arith

  pub div_mod_inj : (a c : ℕ) → a / n ≡ c / n → a % n ≡ c % n → a ≡ c
  div_mod_inj a c p q = grind arith

  pub div_mono : (a b : ℕ) → a ≤ b → a / n ≤ b / n
  div_mono a b h =
      let below : a < (b / n + 1) * n = omega (arith, div-add-mod' b n, mod-lt b pos) in
      omega (arith, (div-lt_iff_lt-mul {x = a} {y = b / n + 1} pos).1 below)
