-- ===== src/Bitmap/Count.antt =====
-- `count_free` of src/bitmap.c.
use native.Mathlib.Nat.{div-add-mod', mod-lt, mod-eq_of_lt, mul-le-mul_left}
use cominix_fs.Prelude.{
  ℕ, zero, suc, ◌+◌, ◌-◌, ◌*◌, ◌/◌, ◌%◌, ◌^◌, ◌<◌, ◌≤◌, ◌≡◌, refl, sym, ap, ◌∙◌, inl, inr, ltb, leb,
  ltb→lt, ◌==◌, ==_iff, Bool-cases, pow_add, pow_pos, List, [], ◌∷◌, arith, if◌then◌else◌, length,
}
use cominix_fs.BitOps.{BitOps, weight}
use cominix_fs.Fs.{Bits, Fs, s_blocksize, ok}
use cominix_fs.Fs.Device.{pow_split}
use cominix_fs.Bitmap.{
  bits_per_zone, count_words, count_blocks, count_free, cominix_count_free_blocks,
}

-- the number of clear bits among the `n` from bit `k` on
unfoldable pub clear_bits : Bits → ℕ → ℕ → ℕ
clear_bits b k zero = 0
clear_bits b k (suc n) = (if b k then 0 else 1) + clear_bits b (k + 1) n

-- the number of clear bits in the first `n` blocks of `w` bits
unfoldable pub clear_in : ℕ → List Bits → ℕ → ℕ
clear_in w maps zero = 0
clear_in w [] (suc n) = 0
clear_in w (b ∷ maps) (suc n) = clear_bits b 0 w + clear_in w maps n

clear_bits-weight : (b : Bits) (k n : ℕ) → weight b k n + clear_bits b k n ≡ n
unfolding clear_bits weight
clear_bits-weight b k zero = refl
clear_bits-weight b k (suc n) = ground (arith, clear_bits-weight b (k + 1) n)

clear_bits_split :
    (b : Bits) (k m n : ℕ) → clear_bits b k (m + n) ≡ clear_bits b k m + clear_bits b (k + m) n
unfolding clear_bits
clear_bits_split b k zero n =
    let none_left : 0 + n ≡ n = omega arith in
    let same : k ≡ k + 0 = omega arith in
    omega (arith, ap (clear_bits b k) none_left, ap (λ j. clear_bits b j n) same)
clear_bits_split b k (suc m) n =
    let one_more : suc m + n ≡ suc (m + n) = omega arith in
    let same : k + 1 + m ≡ k + suc m = omega arith in
    let rest = clear_bits_split b (k + 1) m n in
    let later = ap (λ j. clear_bits b j n) same in
    ap (clear_bits b k) one_more ∙ omega (arith, rest, later)

clear_in-le : (w : ℕ) (maps : List Bits) (n : ℕ) → clear_in w maps n ≤ n * w
unfolding clear_in
clear_in-le w maps zero = omega arith
clear_in-le w [] (suc n) = omega arith
clear_in-le w (b ∷ maps) (suc n) = grind (arith, clear_in-le w maps n, clear_bits-weight b 0 w)

module _ (ops : BitOps) where
  count_words-clear :
      (b : Bits) (w words sum : ℕ)
      → sum + 16 * words < 2 ^ 32
      → count_words ops b w words sum ≡ sum + clear_bits b (16 * w) (16 * words)
  unfolding count_words clear_bits
  count_words-clear b w zero sum h = omega arith
  count_words-clear b w (suc words) sum h =
      let here = clear_bits-weight b (16 * w) 16 in
      let is : 16 - ops.hweight16 b w ≡ clear_bits b (16 * w) 16 =
        omega (arith, here, ops.hweight16_lem b w) in
      let small : (sum + (16 - ops.hweight16 b w)) % 2 ^ 32 ≡ sum + clear_bits b (16 * w) 16 =
        omega (arith, is, here) in
      let next : 16 * (w + 1) ≡ 16 * w + 16 = omega arith in
      let more : 16 + 16 * words ≡ 16 * suc words = omega arith in
      rw small (
        count_words-clear b (w + 1) words (sum + clear_bits b (16 * w) 16) (omega (arith, here))
        ∙ omega (
          arith,
          clear_bits_split b (16 * w) 16 (16 * words),
          ap (λ j. clear_bits b j (16 * words)) next,
          ap (clear_bits b (16 * w)) more,
        ))

  count_blocks-clear :
      (s : Fs) (maps : List Bits) (blocksize blocks sum : ℕ)
      → blocksize % 2 ≡ 0
      → blocks ≤ length maps
      → sum + blocks * (8 * blocksize) < 2 ^ 32
      → count_blocks ops maps blocksize blocks sum s
        ≡ ok (sum + clear_in (8 * blocksize) maps blocks) s
  unfolding count_blocks clear_in
  count_blocks-clear s maps blocksize zero sum even le h =
      let same : sum ≡ sum + 0 = omega arith in ap (λ n. ok n s) same
  count_blocks-clear s [] blocksize (suc blocks) sum even le h = absurd (omega arith)
  count_blocks-clear s (b ∷ maps) blocksize (suc blocks) sum even le h =
      let bits : 16 * (blocksize / 2) ≡ 8 * blocksize = omega arith in
      let first : 16 * 0 ≡ 0 = refl in
      let here : count_words ops b 0 (blocksize / 2) sum ≡ sum + clear_bits b 0 (8 * blocksize) =
        count_words-clear b 0 (blocksize / 2) sum (grind arith)
        ∙ ap (λ n. sum + clear_bits b 0 n) bits in
      let some : clear_bits b 0 (8 * blocksize) ≤ 8 * blocksize =
        omega (arith, clear_bits-weight b 0 (8 * blocksize)) in
      rw here (
        count_blocks-clear s maps blocksize blocks (sum + clear_bits b 0 (8 * blocksize)) even
          (omega arith) (grind arith)
        ∙ ap (λ n. ok n s) (omega arith))

-- the number of map blocks that `n` bits need
abbrev pub blocks_for : Fs → ℕ → ℕ
blocks_for s n = (n + (bits_per_zone s - 1)) / bits_per_zone s

module _ (ops : BitOps) (s : Fs) (lo : 9 ≤ s.s_blocksize_bits) where
  even : s_blocksize s % 2 ≡ 0
  even = omega (arith, pow_split s.s_blocksize_bits lo)

  -- so `DIV_ROUND_UP` does not overflow
  no_wrap :
      (n : ℕ)
      → 0 < n
      → blocks_for s n * bits_per_zone s < 2 ^ 32
      → (n + (bits_per_zone s - 1)) % 2 ^ 32 ≡ n + (bits_per_zone s - 1)
  no_wrap n some small =
      let b = s.s_blocksize_bits in
      let w = bits_per_zone s in
      let q = blocks_for s n in
      let pos : 0 < w = omega (arith, pow_pos b) in
      let whole = div-add-mod' (n + (w - 1)) w in
      let left = mod-lt (n + (w - 1)) pos in
      mod-eq_of_lt (elim (Bool-cases (leb b 29)) [
        | inl e ↦
            let le : b ≤ 29 = ground arith in
            let k = 2 ^ (29 - b) in
            let same : b + (29 - b) ≡ 29 = omega arith in
            let split : 2 ^ 29 ≡ 2 ^ b * k = ap (λ d. 2 ^ d) (sym same) ∙ pow_add b (29 - b) in
            let total : k * w ≡ 2 ^ 32 = omega (arith, split) in
            elim (Bool-cases (ltb q k)) [
              | inl below ↦
                  let lt = ltb→lt q k below in
                  let room : w * (q + 1) ≤ w * k =
                    mul-le-mul_left {m = q + 1} {n = k} w (omega arith) in
                  omega (arith, room, total, whole, left)
              | inr above ↦
                  let ge : k ≤ q = ground arith in
                  let full : w * k ≤ w * q = mul-le-mul_left {m = k} {n = q} w ge in
                  absurd (omega (arith, full, total, small))
            ]
        | inr e ↦
            let gt : 30 ≤ b = ground arith in
            let same : 30 + (b - 30) ≡ b = omega arith in
            let split : 2 ^ b ≡ 2 ^ 30 * 2 ^ (b - 30) =
              ap (λ d. 2 ^ d) (sym same) ∙ pow_add 30 (b - 30) in
            let one : 1 ≤ q = elim (Bool-cases (q == 0)) [
              | inl z ↦
                  let none_left : q * w ≡ 0 = ap (λ j. j * w) ((==_iff q 0).0 z) ∙ omega arith in
                  absurd (omega (arith, none_left, whole, left, some))
              | inr z ↦ ground arith
            ] in
            let most : w * 1 ≤ w * q = mul-le-mul_left {m = 1} {n = q} w one in
            absurd (omega (arith, most, small, split, pow_pos (b - 30)))
      ])

  count_free-clear :
      (maps : List Bits) (n : ℕ)
      → 0 < n
      → blocks_for s n ≤ length maps
      → blocks_for s n * bits_per_zone s < 2 ^ 32
      → count_free ops maps (s_blocksize s) n s
        ≡ ok (clear_in (bits_per_zone s) maps (blocks_for s n)) s
  unfolding count_free
  count_free-clear maps n some le small =
      let width : s_blocksize s * 8 ≡ bits_per_zone s = omega arith in
      rw (width, no_wrap n some small)
        (count_blocks-clear ops s maps (s_blocksize s) (blocks_for s n) 0 even le
            (omega (arith, small))
          ∙ ap (λ k. ok k s) (omega arith))

  -- For blocks of at least 512 bytes, zones of one block, a data area that does not begin behind
  -- the last zone, numbers of zones and of counted bits below 2 ^ 32, and as many map blocks as the
  -- data area needs, `cominix_count_free_blocks` returns the number of clear bits in these map
  -- blocks and changes nothing.
  pub cominix_count_free_blocks-clear :
      s.sb.s_log_zone_size ≡ 0
      → s.sb.s_firstdatazone ≤ s.sb.s_nzones
      → s.sb.s_nzones + 1 < 2 ^ 32
      → blocks_for s (s.sb.s_nzones - s.sb.s_firstdatazone + 1) ≤ length s.s_zmap
      → blocks_for s (s.sb.s_nzones - s.sb.s_firstdatazone + 1) * bits_per_zone s < 2 ^ 32
      → cominix_count_free_blocks ops s
        ≡ ok
            (clear_in
              (bits_per_zone s)
              s.s_zmap
              (blocks_for s (s.sb.s_nzones - s.sb.s_firstdatazone + 1)))
            s
  unfolding cominix_count_free_blocks
  cominix_count_free_blocks-clear unit zones fits le small =
      let n = s.sb.s_nzones - s.sb.s_firstdatazone + 1 in
      let number : (s.sb.s_nzones + 2 ^ 32 - s.sb.s_firstdatazone + 1) % 2 ^ 32 ≡ n = omega arith in
      let bound = clear_in-le (bits_per_zone s) s.s_zmap (blocks_for s n) in
      let c = clear_in (bits_per_zone s) s.s_zmap (blocks_for s n) in
      let whole : c * 2 ^ 0 % 2 ^ 32 ≡ c = omega arith in
      rw (number, count_free-clear s.s_zmap n (omega arith) le small)
        (ap (λ k. ok k s) (ap (λ e. c * 2 ^ e % 2 ^ 32) unit ∙ whole))
