-- ===== src/Fs/Device.antt =====
-- Devices on which every block below a limit can be read.
use native.Mathlib.Nat.{lt_of_mul-lt-mul_left, div-add-mod'}
use cominix_fs.Prelude.{
  ℕ, ◌+◌, ◌-◌, ◌*◌, ◌/◌, ap, ◌∙◌, le→ltb, ◌^◌, ◌<◌, ◌≤◌, ◌≡◌, Bool, true, some, arith, pow_add,
}
use cominix_fs.Fs.{Fs, ok, sb_bread, load_block}

-- The block size is between 512 bytes and 1 GB, every block that begins below `limit` can be read,
-- and its number fits into the 32 bits of a `block_t`.
pub record IsDevice (bits : ℕ) (readable : ℕ → Bool) (limit : ℕ) : Type 0 where
  pub bits_lo : 9 ≤ bits
  pub bits_hi : bits ≤ 30
  pub blocks : (b : ℕ) → b * 2 ^ bits < limit → readable b ≡ true
  pub small : limit ≤ 2 ^ 32 * 2 ^ bits

abbrev pub Readable : Fs → ℕ → Type 0
Readable s limit = IsDevice s.s_blocksize_bits s.readable limit

pub pow_split : (bits : ℕ) → 9 ≤ bits → 2 ^ bits ≡ 512 * 2 ^ (bits - 9)
pow_split bits h =
    let e : bits ≡ 9 + (bits - 9) = omega arith in ap (λ n. 2 ^ n) e ∙ pow_add 9 (bits - 9)

module _ {bits : ℕ} {readable : ℕ → Bool} {limit : ℕ} (dev : IsDevice bits readable limit) where
  pub block_of_addr : (a : ℕ) → a < limit → (a / 2 ^ bits) * 2 ^ bits < limit
  block_of_addr a h = omega (arith, div-add-mod' a (2 ^ bits))

  pub block-lt : (b : ℕ) → b * 2 ^ bits < limit → b < 2 ^ 32
  block-lt b h = lt_of_mul-lt-mul_left (2 ^ bits) {m = b} {n = 2 ^ 32} (omega (arith, dev.small))

  pub block_fits : (a : ℕ) → a < limit → a / 2 ^ bits < 2 ^ 32
  block_fits a h = block-lt (a / 2 ^ bits) (block_of_addr a h)

  pub size_split : 2 ^ bits ≡ 512 * 2 ^ (bits - 9)
  size_split = pow_split bits dev.bits_lo

pub sb_bread-ok : (s : Fs) (b : ℕ) → s.readable b ≡ true → sb_bread b s ≡ ok (some b) s
unfolding sb_bread
sb_bread-ok s b h = rw h

pub load_block-ok :
    (s : Fs) (b : ℕ) → 9 ≤ s.s_blocksize_bits → s.readable b ≡ true → load_block b s ≡ ok (some b) s
unfolding load_block
load_block-ok s b lo h = rw (le→ltb s.s_blocksize_bits 9 lo, sb_bread-ok s b h)
