-- ===== src/Mount/Maps.antt =====
-- The bitmaps that `cominix_fill_super` of src/inode.c reads.
use native.Mathlib.Nat.{div-lt_iff_lt-mul}
use cominix_fs.Prelude.{
  ℕ, zero, suc, ◌+◌, ◌-◌, ◌*◌, ◌/◌, ◌%◌, ◌^◌, ◌<◌, ◌≤◌, ◌≡◌, refl, ap, ◌∙◌, Bool, true, some, List,
  [], ◌∷◌, arith, length, get_or, set, div_of, mod_of,
}
use cominix_fs.BitOps.{BitOps}
use cominix_fs.Bitmap.Maps.{mark}
use cominix_fs.Bitmap.{bits_per_zone}
use cominix_fs.Fs.{Bits, Fs, ok}
use cominix_fs.Fs.Device.{sb_bread-ok}
use cominix_fs.Mount.FillSuper.{bits_of, read_maps}

-- bit `n` of the map of blocks from `block` on, as the device has it
abbrev pub bit_on_disk : Fs → ℕ → ℕ → Bool
bit_on_disk s block n = bits_of s.disk (block + n / bits_per_zone s) (n % bits_per_zone s)

-- Every block from `block` on, up to `rounds` of them, is read.
abbrev pub MapsRead : Fs → ℕ → ℕ → List Bits → Type 0
MapsRead s rounds block maps =
    (read_maps rounds block s ≡ ok (some maps) s)
    × (length maps ≡ rounds)
    × ((i : ℕ) → i < rounds → get_or maps i (λ _. true) ≡ bits_of s.disk (block + i))

first_and_rest :
    (s : Fs) (rounds block : ℕ) (maps : List Bits)
    → ((i : ℕ) → i < rounds → get_or maps i (λ _. true) ≡ bits_of s.disk (block + 1 + i))
    → (i : ℕ) → i < suc rounds
    → get_or (bits_of s.disk block ∷ maps) i (λ _. true) ≡ bits_of s.disk (block + i)
first_and_rest s rounds block maps bits zero h =
    let z : block ≡ block + 0 = omega arith in ap (bits_of s.disk) z
first_and_rest s rounds block maps bits (suc i) h =
    let z : block + 1 + i ≡ block + suc i = omega arith in
    bits i (omega arith) ∙ ap (bits_of s.disk) z

pub read_maps-MapsRead :
    (s : Fs) (rounds block : ℕ)
    → ((b : ℕ) → block ≤ b → b < block + rounds → s.readable b ≡ true)
    → (maps : List Bits) × MapsRead s rounds block maps
unfolding read_maps
read_maps-MapsRead s zero block readable = ([], (refl, refl, λ i h. absurd (omega arith)))
read_maps-MapsRead s (suc rounds) block readable =
    let (maps, (run, sized, bits)) =
      read_maps-MapsRead s rounds (block + 1) (λ b lo hi. readable b (omega arith) (omega arith)) in
    (
      bits_of s.disk block ∷ maps,
      (
        rw (sb_bread-ok s block (readable block (omega arith) (omega arith)), run),
        ap suc sized,
        first_and_rest s rounds block maps bits,
      ),
    )

-- What a mount needs of the super block's numbers: a bit for each inode and for each zone of the
-- data area, beside the first one of each map, and at least one such zone.
pub record GoodNumbers (s : Fs) : Type 0 where
  pub inodes : s.sb.s_ninodes < s.sb.s_imap_blocks * bits_per_zone s
  pub imap_small : s.sb.s_imap_blocks * bits_per_zone s < 2 ^ 31
  pub first_pos : 0 < s.sb.s_firstdatazone
  pub some_zone : s.sb.s_firstdatazone < s.sb.s_nzones
  pub zones : s.sb.s_nzones + 1 ≤ s.sb.s_zmap_blocks * bits_per_zone s + s.sb.s_firstdatazone
  pub zmap_small : s.sb.s_zmap_blocks * bits_per_zone s + s.sb.s_firstdatazone < 2 ^ 31

module _ (w : ℕ) (pos : 0 < w) where
  -- a positive number of blocks has the bits of one
  pub one_block : (bits blocks : ℕ) → 0 < bits → bits ≤ blocks * w → w ≤ blocks * w
  one_block bits zero positive h = absurd (omega arith)
  one_block bits (suc blocks) positive h = omega arith

  pub needed-le :
      (bits blocks : ℕ)
      → bits ≤ blocks * w
      → bits + w < 2 ^ 32
      → (bits % 2 ^ 32 + (w - 1)) % 2 ^ 32 / w ≤ blocks
  needed-le bits blocks h small =
      let same : (bits % 2 ^ 32 + (w - 1)) % 2 ^ 32 ≡ bits + (w - 1) = omega arith in
      rw same (
        omega
          (arith, (div-lt_iff_lt-mul {x = bits + (w - 1)} {y = blocks + 1} pos).1 (omega arith)))

  pub blocks_pos : (blocks : ℕ) → 0 < blocks * w → 0 < blocks
  blocks_pos zero h = absurd (omega arith)
  blocks_pos (suc blocks) h = omega arith

  zero_div : 0 / w ≡ 0
  zero_div = let z : 0 ≡ 0 * w + 0 = omega arith in ap (λ a. a / w) z ∙ div_of w pos 0 0 pos

  zero_mod : 0 % w ≡ 0
  zero_mod = let z : 0 ≡ 0 * w + 0 = omega arith in ap (λ a. a % w) z ∙ mod_of w pos 0 0 pos

  -- the map with its first bit set
  pub mark-first :
      (ops : BitOps) (maps : List Bits)
      → mark ops w maps 0 ≡ set maps 0 (ops.set_bit 0 (get_or maps 0 (λ _. true)))
  mark-first ops maps = rw (zero_div, zero_mod)
