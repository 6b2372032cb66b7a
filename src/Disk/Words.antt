-- ===== src/Disk/Words.antt =====
-- Little-endian integers.
use native.Mathlib.Nat.{pow-suc}
use cominix_fs.Prelude.{ℕ, zero, suc, ◌/◌, ◌^◌, ◌<◌, ◌≡◌, refl, ap, arith, length}
use cominix_fs.Disk.{to_le, from_le}

pub length-to_le : (n v : ℕ) → length (to_le n v) ≡ n
unfolding to_le
length-to_le zero v = refl
length-to_le (suc n) v = ap suc (length-to_le n (v / 256))

pub from_le-to_le : (n v : ℕ) → v < 256 ^ n → from_le (to_le n v) ≡ v
unfolding to_le from_le
from_le-to_le zero v h = omega arith
from_le-to_le (suc n) v h =
    let e : v / 256 < 256 ^ n = omega (arith, pow-suc 256 n) in
    omega (arith, from_le-to_le n (v / 256) e)
