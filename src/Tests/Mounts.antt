-- ===== src/Tests/Mounts.antt =====
-- The bitmaps of the small device at a mount.
use cominix_fs.Prelude.{
  ℕ, ◌+◌, ◌*◌, ◌<◌, ◌≡◌, ◌||◌, refl, Bool, Option, some, true, not, none, ◌==◌, if◌then◌else◌,
  arith,
}
use cominix_fs.Bitmap.Alloc.{busy, ZmapOk}
use cominix_fs.Bitmap.Inodes.{ImapOk, used}
use cominix_fs.Bitmap.{bits_per_zone}
use cominix_fs.Fs.{Fs, ok, at, load_le, load_bytes}
use cominix_fs.Disk.{byte_at, from_le, get_bytes}
use cominix_fs.Mount.FillSuper.{
  SuperBlock, load_super, info_of, in_blocks, fill_maps, fill_root, refused, cominix_fill_super,
}
use cominix_fs.Mount.{cominix_check_superblock}
use cominix_fs.Mount.FilledMaps.{fill_maps-ZmapOk}
use cominix_fs.Mount.Refused.{cominix_fill_super-refused}
use cominix_fs.Mount.Maps.{GoodNumbers, bit_on_disk}
use cominix_fs.Tests.Bits.{bit_ops}
use cominix_fs.Tests.Names.{kernel}
use cominix_fs.Tests.{small_fs}

small_GoodNumbers : GoodNumbers small_fs
small_GoodNumbers = record {
  inodes = omega arith;
  imap_small = omega arith;
  first_pos = omega arith;
  some_zone = omega arith;
  zones = omega arith;
  zmap_small = omega arith;
}

fill_maps-ZmapOk_example :
    (s' : Fs) × (fill_maps bit_ops kernel true
        (λ n. true)
        (λ n. none)
        (λ n b. true)
        (λ i. true)
        0
        true
        small_fs
      ≡ fill_root bit_ops kernel true (λ n. true) (λ n. none) (λ n b. true) (λ i. true) true s')
    × ImapOk s'
    × ZmapOk s'
    × ((n : ℕ)
        → n < 1 * bits_per_zone small_fs
        → used s' n ≡ (if 0 == n then true else bit_on_disk small_fs 2 n))
    × ((n : ℕ)
        → n < 1 * bits_per_zone small_fs
        → busy s' n ≡ (if 0 == n then true else bit_on_disk small_fs (2 + 1) n))
    × (s' ≡ record small_fs { s_imap = s'.s_imap; s_zmap = s'.s_zmap })
fill_maps-ZmapOk_example =
    fill_maps-ZmapOk bit_ops kernel true (λ n. true) (λ n. none) (λ n b. true) (λ i. true) small_fs
      0 true small_GoodNumbers refl (λ b lo hi. refl)

-- A device of 64 MB with a super block at byte 1024, in blocks of 512 bytes.
abbrev super_byte : ℕ → ℕ
super_byte o =
    if o == 0
    then 8
    else if (o == 6) || (o == 8) || (o == 22)
    then 1
    else if o == 10
    then 5
    else if o == 18
    then 64
    else if o == 24
    then 0x5a
    else if o == 25
    then 0x4d
    else if o == 29
    then 4
    else 0

abbrev raw_fs : Fs
raw_fs = record small_fs { disk = λ b o. if b == 2 then super_byte o else 0 }

abbrev super_block : SuperBlock
super_block = record {
  s_ninodes = 8;
  s_pad0 = 0;
  s_imap_blocks = 1;
  s_zmap_blocks = 1;
  s_firstdatazone = 5;
  s_log_zone_size = 0;
  s_pad1 = 0;
  s_max_size = 4194304;
  s_zones = 65536;
  s_magic = 19802;
  s_blocksize = 1024;
}

abbrev sizes : ℕ → Option ℕ
sizes n = if n == 1024 then some 10 else none

-- the first block of the zone map cannot be read
abbrev broken : ℕ → ℕ → Bool
broken bits b = not (b == 3)

abbrev raw_view : Fs
raw_view = in_blocks bit_ops kernel true (λ n. true) sizes broken (λ i. true) 10 raw_fs

raw_super : load_super (at 1 0) raw_view ≡ ok super_block raw_view
unfolding load_super in_blocks from_le byte_at load_le load_bytes get_bytes
raw_super = refl

raw_checked : cominix_check_superblock (info_of super_block) super_block.s_max_size ≡ true
unfolding cominix_check_superblock info_of
raw_checked = refl

raw_fresh : (info_of super_block).extra_sb_location ≡ 0
unfolding info_of
raw_fresh = refl

cominix_fill_super-refused_example :
    (s' : Fs) × (cominix_fill_super bit_ops kernel true (λ n. true) sizes broken (λ i. true) raw_fs
      ≡ ok (refused 0) s')
cominix_fill_super-refused_example =
    cominix_fill_super-refused bit_ops kernel (λ n. true) sizes broken (λ i. true) raw_fs 10 10
      super_block 3 refl refl raw_super refl refl refl raw_checked raw_fresh (omega arith) refl
      (omega arith) (omega arith) refl
