-- ===== src/Mount/FillSuper.antt =====
-- `cominix_fill_super` of src/inode.c, which mounts a device, and `cominix_put_super`.
use cominix_fs.Prelude.{
  ℕ, zero, suc, ◌+◌, ◌-◌, ◌*◌, ◌/◌, ◌%◌, ◌^◌, Bool, not, Option, none, some, List, [], ◌∷◌, ltb,
  ◌==◌, if◌then◌else◌, inl, inr,
}
use cominix_fs.BitOps.{BitOps}
use cominix_fs.Bitmap.{map_at, put_imap, put_zmap}
use cominix_fs.Disk.{Disk, byte_at}
use cominix_fs.Fs.{
  Bits, SbInfo, Fs, s_blocksize, M, pure, ◌>>=◌, ◌>>◌, get, modify, bug_on, Ptr, at, shift, load_le,
  sb_bread,
}
use cominix_fs.Inode.{Inode, Errno, eio, estale, inode, error}
use cominix_fs.Mount.{cminix_fill_extra_super, cminix_alloc_extra_super, cominix_check_superblock}
use cominix_fs.Namei.{Vfs, cominix_iget}

-- `struct cominix3_super_block`, less what a mount does not read
pub record SuperBlock : Type 0 where
  pub s_ninodes : ℕ
  pub s_pad0 : ℕ
  pub s_imap_blocks : ℕ
  pub s_zmap_blocks : ℕ
  pub s_firstdatazone : ℕ
  pub s_log_zone_size : ℕ
  pub s_pad1 : ℕ
  pub s_max_size : ℕ
  pub s_zones : ℕ
  pub s_magic : ℕ
  pub s_blocksize : ℕ

unfoldable pub load_super : Ptr → M SuperBlock
load_super p = do
  ninodes ← load_le 4 p
  pad0 ← load_le 2 (shift p 4)
  imap_blocks ← load_le 2 (shift p 6)
  zmap_blocks ← load_le 2 (shift p 8)
  firstdatazone ← load_le 2 (shift p 10)
  log_zone_size ← load_le 2 (shift p 12)
  pad1 ← load_le 2 (shift p 14)
  max_size ← load_le 4 (shift p 16)
  zones ← load_le 4 (shift p 20)
  magic ← load_le 2 (shift p 24)
  blocksize ← load_le 2 (shift p 28)
  pure (record {
    s_ninodes = ninodes;
    s_pad0 = pad0;
    s_imap_blocks = imap_blocks;
    s_zmap_blocks = zmap_blocks;
    s_firstdatazone = firstdatazone;
    s_log_zone_size = log_zone_size;
    s_pad1 = pad1;
    s_max_size = max_size;
    s_zones = zones;
    s_magic = magic;
    s_blocksize = blocksize;
  })

-- the info as the super block gives it, with the other fields 0 as after `kzalloc`
unfoldable pub info_of : SuperBlock → SbInfo
info_of m = record {
  s_ninodes = m.s_ninodes;
  s_nzones = m.s_zones;
  s_imap_blocks = m.s_imap_blocks;
  s_zmap_blocks = m.s_zmap_blocks;
  s_firstdatazone = m.s_firstdatazone;
  s_log_zone_size = m.s_log_zone_size;
  s_dirsize = 64;
  s_namelen = 60;
  s_mount_state = 1;
  s_version = 3;
  extra_sb_location = (m.s_pad1 * 2 ^ 16 + m.s_pad0) % 2 ^ 32;
  hashtable = 0;
  hashtable_size = 0;
  heap_brk = 0;
  max_brk = 0;
}

abbrev pub set_info : SbInfo → Fs → Fs
set_info sbi s = record s { sb = sbi }

-- the zones up to the hash table, and the device's end as the end of the heap
abbrev pub set_nzones : ℕ → Fs → Fs
set_nzones n s = record s {
  sb = record (s.sb) { max_brk = s.sb.s_nzones * s_blocksize s; s_nzones = n };
}

-- Bit `n` of the block `b`, by its little-endian number.
unfoldable pub bits_of : Disk → ℕ → Bits
bits_of d b n = (d b (n / 8) / 2 ^ (n % 8)) % 2 == 1

-- The bitmap blocks from `block` on, unless one cannot be read.
unfoldable pub read_maps : ℕ → ℕ → M (Option (List Bits))
read_maps zero block = pure (some [])
read_maps (suc rounds) block = do
  bh ← sb_bread block
  elim bh [
    | none ↦ pure none
    | some b ↦ do
      s ← get
      rest ← read_maps rounds (block + 1)
      elim rest [ none ↦ pure none | some maps ↦ pure (some (bits_of s.disk b ∷ maps)) ]
  ]

abbrev set_maps : List Bits → List Bits → Fs → Fs
set_maps imap zmap s = record s { s_imap = imap; s_zmap = zmap }

-- `bits` and the result are unsigned ints.
unfoldable pub cominix_blocks_needed : ℕ → ℕ → ℕ
cominix_blocks_needed bits blocksize =
    (bits % 2 ^ 32 + (blocksize * 8 - 1)) % 2 ^ 32 / (blocksize * 8)

-- The root's inode, or a refusal, with the negated result. A refusal leaves `s_fs_info` NULL.
pub data Mounted : Type 0 where
  mounted : Inode → Mounted
  refused : ℕ → Mounted

abbrev errno : Errno → ℕ
errno eio = 5
errno estale = 116

-- `MINIX3_SUPER_MAGIC`
abbrev pub magic : ℕ
magic = 19802

-- What the kernel gives: `kzalloc_info` and `kzalloc` whether there is memory for the info and maps;
-- `sb_set_blocksize` the number of bits of a block size, unless the device cannot have it;
-- `device_readable` which blocks of a size can be read; `d_make_root` whether there is a dentry.
module _ (ops : BitOps) (k : Vfs) (kzalloc_info : Bool) (kzalloc : ℕ → Bool)
    (sb_set_blocksize : ℕ → Option ℕ) (device_readable : ℕ → ℕ → Bool)
    (d_make_root : Inode → Bool) where
  -- the same device in blocks of `2 ^ bits` bytes
  unfoldable pub in_blocks : ℕ → Fs → Fs
  in_blocks bits s = record s {
    s_blocksize_bits = bits;
    readable = device_readable bits;
    disk = λ b o. byte_at (s_blocksize s) s.disk (b * 2 ^ bits + o);
  }

  -- a size that the device cannot have leaves the old one
  unfoldable pub set_blocksize : ℕ → Fs → Fs
  set_blocksize size s = elim (sb_set_blocksize size) [ none ↦ s | some bits ↦ in_blocks bits s ]

  -- The super block lies at byte 1024 of the device.
  unfoldable pub super_ptr : Fs → Ptr
  super_ptr s = at (1024 / s_blocksize s) (1024 % s_blocksize s)

  -- From the root's inode on.
  unfoldable pub fill_root : Bool → M Mounted
  fill_root alloc_new_esb = do
    root ← cominix_iget ops k 1
    elim root [
      | inl e ↦ pure (refused e)
      | inr (error e) ↦ pure (refused (errno e))
      | inr (inode root_inode) ↦
          if not (d_make_root root_inode)
          then pure (refused 12)
          else if alloc_new_esb
          then (do s ← get; cminix_alloc_extra_super ops (super_ptr s); pure (mounted root_inode))
          else pure (mounted root_inode)
    ]

  -- From the bitmaps on. `ret` is the result of `cminix_fill_extra_super`, which the failures of
  -- the bitmaps return.
  unfoldable pub fill_maps : ℕ → Bool → M Mounted
  fill_maps ret alloc_new_esb = do
    s ← get
    if not (kzalloc ((s.sb.s_imap_blocks + s.sb.s_zmap_blocks) * 8)) then pure (refused 12) else do
      imap ← read_maps s.sb.s_imap_blocks 2
      elim imap [
        | none ↦ pure (refused ret)
        | some is ↦ do
          zmap ← read_maps s.sb.s_zmap_blocks (2 + s.sb.s_imap_blocks)
          elim zmap [
            | none ↦ pure (refused ret)
            | some zs ↦ do
              modify (set_maps is zs)
              i₀ ← map_at is 0
              modify (put_imap 0 (ops.set_bit 0 i₀))
              z₀ ← map_at zs 0
              modify (put_zmap 0 (ops.set_bit 0 z₀))
              if ltb s.sb.s_imap_blocks (cominix_blocks_needed s.sb.s_ninodes (s_blocksize s))
                  then pure (refused ret)
                  else if ltb s.sb.s_zmap_blocks (
                      cominix_blocks_needed (s.sb.s_nzones + 2 ^ 32 - s.sb.s_firstdatazone + 1)
                        (s_blocksize s))
                  then pure (refused ret)
                  else fill_root alloc_new_esb
          ]
      ]

  -- 22 is `EINVAL`, 12 is `ENOMEM`.
  unfoldable pub cominix_fill_super : M Mounted
  cominix_fill_super =
      if not kzalloc_info then pure (refused 12) else elim (sb_set_blocksize 1024) [
        | none ↦ pure (refused 22)
        | some bits ↦ do
          modify (in_blocks bits)
          bh ← sb_bread 1
          elim bh [
            | none ↦ pure (refused 22)
            | some b ↦ do
              m ← load_super (at b 0)
              if not (m.s_magic == magic)
                  then pure (refused 22)
                  else if not (m.s_log_zone_size == 0)
                  then pure (refused 22)
                  else do
                    modify (set_info (info_of m))
                    modify (set_blocksize m.s_blocksize)
                    if not (cominix_check_superblock (info_of m) m.s_max_size)
                        then pure (refused 22)
                        else do
                          ret ← cminix_fill_extra_super
                          if not (ret == 0) then pure (refused ret) else do
                            s ← get
                            let new_nzones = s.sb.hashtable / s_blocksize s
                            bug_on (ltb s.sb.s_nzones new_nzones)
                            modify (set_nzones new_nzones)
                            fill_maps ret ((info_of m).extra_sb_location == 0)
          ]
      ]

-- Whether the mount is read-only. The blocks of the maps and of the super block are released.
unfoldable pub cominix_put_super : Bool → ℕ → ℕ → ℕ → ℕ
cominix_put_super rdonly version mount_state s_state =
    if rdonly then s_state else if version == 3 then s_state else mount_state
