-- ===== src/Bitmap.antt =====
-- src/bitmap.c: the bitmaps of zones and of inodes. `test_and_set_bit` and `test_and_clear_bit`
-- return the old bit, which the source only prints or never finds set.
pub mod Maps
pub mod Alloc
pub mod Free
pub mod Inodes
pub mod Count
use cominix_fs.Prelude.{
  ℕ, zero, suc, ◌+◌, ◌-◌, ◌*◌, ◌/◌, ◌%◌, ◌^◌, Bool, true, false, ◌||◌, Option, none, some, List, [],
  ◌∷◌, ltb, leb, ◌==◌, if◌then◌else◌, get_elem?, set,
}
use cominix_fs.BitOps.{BitOps}
use cominix_fs.Fs.{
  Bits, Fs, SbInfo, s_blocksize, M, ok, bug, oops, pure, ◌>>=◌, ◌>>◌, get, modify, defined_if, Ptr,
  at, shift, store_le, sb_bread, b_data,
}

-- `map[i]`: the contents of a bitmap buffer
unfoldable pub map_at : List Bits → ℕ → M Bits
map_at maps i = elim (get_elem? maps i) [ none ↦ λ _. oops | some b ↦ pure b ]

abbrev pub put_zmap : ℕ → Bits → Fs → Fs
put_zmap i b s = record s { s_zmap = set s.s_zmap i b }

abbrev pub put_imap : ℕ → Bits → Fs → Fs
put_imap i b s = record s { s_imap = set s.s_imap i b }

abbrev pub bits_per_zone : Fs → ℕ
bits_per_zone s = 8 * s_blocksize s

-- An `int` read as a zone number: from 2 ^ 31 on it is negative, and as an unsigned number above
-- every zone.
unfoldable pub out_of_zones : Fs → ℕ → Bool
out_of_zones s j = leb (2 ^ 31) j || (ltb j s.sb.s_firstdatazone || leb s.sb.s_nzones j)

module _ (ops : BitOps) where
  -- the `words` words of one block from word `w` on
  unfoldable pub count_words : Bits → ℕ → ℕ → ℕ → ℕ
  count_words b w zero sum = sum
  count_words b w (suc words) sum =
      count_words b (w + 1) words ((sum + (16 - ops.hweight16 b w)) % 2 ^ 32)

  unfoldable pub count_blocks : List Bits → ℕ → ℕ → ℕ → M ℕ
  count_blocks maps blocksize zero sum = pure sum
  count_blocks [] blocksize (suc blocks) sum = λ _. oops
  count_blocks (b ∷ maps) blocksize (suc blocks) sum =
      count_blocks maps blocksize blocks (count_words b 0 (blocksize / 2) sum)

  -- `DIV_ROUND_UP(numbits, blocksize * 8)` blocks, computed in 32 bits
  unfoldable pub count_free : List Bits → ℕ → ℕ → M ℕ
  count_free maps blocksize numbits =
      count_blocks maps blocksize ((numbits + (blocksize * 8 - 1)) % 2 ^ 32 / (blocksize * 8)) 0

  unfoldable pub cominix_free_block : ℕ → M (Unit {0})
  cominix_free_block block = do
    s ← get
    if ltb block s.sb.s_firstdatazone || leb s.sb.s_nzones block then pure tt else do
      let zone = block - s.sb.s_firstdatazone + 1
      let k = s.s_blocksize_bits + 3
      let bit = zone % 2 ^ k
      let index = zone / 2 ^ k
      if leb s.sb.s_zmap_blocks index
          then pure tt
          else do bh ← map_at s.s_zmap index; modify (put_zmap index (ops.clear_bit bit bh))

  -- `rounds` is the number of map blocks from `i` on.
  unfoldable pub new_block_loop : ℕ → ℕ → M ℕ
  new_block_loop zero i = pure 0
  new_block_loop (suc rounds) i = do
    s ← get
    bh ← map_at s.s_zmap i
    let j = ops.find_first_zero_bit bh (bits_per_zone s)
    if ltb j (bits_per_zone s)
        then (do
          modify (put_zmap i (ops.set_bit j bh))
          let zone = (j + i * bits_per_zone s + s.sb.s_firstdatazone - 1) % 2 ^ 32
          pure (if out_of_zones s zone then 0 else zone))
        else new_block_loop rounds (i + 1)

  unfoldable pub cominix_new_block_sb : M ℕ
  cominix_new_block_sb = do s ← get; new_block_loop s.sb.s_zmap_blocks 0

  -- The source has the same text a second time, for the super block of an inode.
  unfoldable pub cominix_new_block : M ℕ
  cominix_new_block = do s ← get; new_block_loop s.sb.s_zmap_blocks 0

  unfoldable pub cominix_count_free_blocks : M ℕ
  cominix_count_free_blocks = do
    s ← get
    n ←
        count_free s.s_zmap (s_blocksize s)
          ((s.sb.s_nzones + 2 ^ 32 - s.sb.s_firstdatazone + 1) % 2 ^ 32)
    pure (n * 2 ^ s.sb.s_log_zone_size % 2 ^ 32)

  unfoldable pub cominix_count_free_inodes : M ℕ
  cominix_count_free_inodes = do
    s ← get
    count_free s.s_imap (s_blocksize s) ((s.sb.s_ninodes + 1) % 2 ^ 32)

pub data NewInode : Type 0 where
  new_ino : ℕ → NewInode
  enomem enospc : NewInode

module _ (ops : BitOps) where
  -- The first map block from `i` on with a clear bit, and that bit.
  unfoldable pub find_inode : ℕ → ℕ → M (Option (ℕ × ℕ))
  find_inode zero i = pure none
  find_inode (suc rounds) i = do
    s ← get
    bh ← map_at s.s_imap i
    let j = ops.find_first_zero_bit bh (bits_per_zone s)
    if ltb j (bits_per_zone s) then pure (some (i, j)) else find_inode rounds (i + 1)

  -- `new_inode` is whether the kernel gives an inode in memory. The result is the number that the
  -- inode gets, or the error.
  unfoldable pub cominix_new_inode : Bool → M NewInode
  cominix_new_inode false = pure enomem
  cominix_new_inode true = do
    s ← get
    found ← find_inode s.sb.s_imap_blocks 0
    elim found [
      | none ↦ pure enospc
      | some at_bit ↦ do
        bh ← map_at s.s_imap at_bit.0
        if bh at_bit.1 then pure enospc else do
          modify (put_imap at_bit.0 (ops.set_bit at_bit.1 bh))
          let ino = at_bit.1 + at_bit.0 * bits_per_zone s
          pure (if ino == 0 || ltb s.sb.s_ninodes ino then enospc else new_ino ino)
    ]

-- Where the disk inode `ino` lies, if it is in range and its block can be read. `ino` is unsigned.
-- `inodes` is the number in a block, `size` their size.
unfoldable pub raw_inode : ℕ → ℕ → ℕ → M (Option Ptr)
raw_inode inodes size ino = do
  s ← get
  if ino == 0 || ltb s.sb.s_ninodes ino then pure none else do
    bh ← sb_bread (2 + s.sb.s_imap_blocks + s.sb.s_zmap_blocks + (ino - 1) / inodes)
    elim bh [ none ↦ pure none | some b ↦ pure (some (at b ((ino - 1) % inodes * size))) ]

-- `BLOCK_SIZE / sizeof(struct cominix_inode)` is 32.
unfoldable pub cominix_v1_raw_inode : ℕ → M (Option Ptr)
cominix_v1_raw_inode = raw_inode 32 32

unfoldable pub cominix_v2_raw_inode : ℕ → M (Option Ptr)
cominix_v2_raw_inode ino = do s ← get; raw_inode (s_blocksize s / 64) 64 ino

-- `i_nlinks` is the byte at 13 of a V1 inode, and the 16 bits at 2 of a V2 inode.
unfoldable pub cominix_clear_inode : ℕ → M (Unit {0})
cominix_clear_inode ino = do
  s ← get
  if s.sb.s_version == 1
      then (do
        raw ← cominix_v1_raw_inode ino
        elim raw [ none ↦ pure tt | some p ↦ do store_le 1 (shift p 13) 0; store_le 2 p 0 ])
      else do
        raw ← cominix_v2_raw_inode ino
        elim raw [ none ↦ pure tt | some p ↦ do store_le 2 (shift p 2) 0; store_le 2 p 0 ]

module _ (ops : BitOps) where
  unfoldable pub cominix_free_inode : ℕ → M (Unit {0})
  cominix_free_inode ino = do
    s ← get
    if ltb ino 1 || ltb s.sb.s_ninodes ino then pure tt else do
      let k = s.s_blocksize_bits + 3
      let bit = ino % 2 ^ k
      let index = ino / 2 ^ k
      if leb s.sb.s_imap_blocks index then pure tt else do
        cominix_clear_inode ino
        bh ← map_at s.s_imap index
        modify (put_imap index (ops.clear_bit bit bh))
