-- ===== src/Mount/FilledMaps.antt =====
-- What `cominix_fill_super` of src/inode.c makes of the bitmaps.
use native.Mathlib.Nat.{div-lt_iff_lt-mul}
use cominix_fs.Prelude.{
  ℕ, ◌+◌, ◌-◌, ◌*◌, ◌/◌, ◌%◌, ◌^◌, ◌<◌, ◌≤◌, ◌≡◌, refl, ap, ◌∙◌, Bool, true, Option, List, arith,
  ◌==◌, if◌then◌else◌, length, length-set, get_or, le→ltb, pow_pos, set,
}
use cominix_fs.BitOps.{BitOps}
use cominix_fs.Bitmap.Alloc.{busy, ZmapOk, map_at-get_or}
use cominix_fs.Bitmap.Inodes.{ImapOk, used}
use cominix_fs.Bitmap.Maps.{bit_at, mark, bit_at-mark}
use cominix_fs.Bitmap.{bits_per_zone}
use cominix_fs.Fs.{Bits, Fs, s_blocksize}
use cominix_fs.Inode.{Inode}
use cominix_fs.Mount.FillSuper.{cominix_blocks_needed, fill_maps, fill_root}
use cominix_fs.Namei.{Vfs}
use cominix_fs.Mount.Maps.{
  bit_on_disk, MapsRead, read_maps-MapsRead, GoodNumbers, one_block, needed-le, blocks_pos,
  mark-first,
}

module _ (ops : BitOps) (s : Fs) (v : GoodNumbers s) where
  w_pos : 0 < bits_per_zone s
  w_pos = omega (arith, pow_pos s.s_blocksize_bits)

  -- a map that was read, with its first bit set, against the device
  marked_bit :
      (rounds block : ℕ) (maps : List Bits)
      → MapsRead s rounds block maps
      → 0 < rounds * bits_per_zone s
      → (n : ℕ) → n < rounds * bits_per_zone s
      → bit_at (bits_per_zone s) (mark ops (bits_per_zone s) maps 0) n
        ≡ (if 0 == n then true else bit_on_disk s block n)
  unfolding bit_at
  marked_bit rounds block maps (run, sized, bits) some_bit n h =
      let w = bits_per_zone s in
      let inside : n / w < rounds = (div-lt_iff_lt-mul {x = n} {y = rounds} w_pos).1 h in
      let old : get_or maps (n / w) (λ _. true) (n % w) ≡ bit_on_disk s block n =
        ap (λ f. f (n % w)) (bits (n / w) inside) in
      let whole : 0 < length maps * w = rw sized some_bit in
      bit_at-mark ops w w_pos maps 0 n whole ∙ ap (λ b. if 0 == n then true else b) old

  -- the state that the maps are read into
  abbrev with_maps : List Bits → List Bits → Fs
  with_maps is zs = record s {
    s_imap = mark ops (bits_per_zone s) is 0;
    s_zmap = mark ops (bits_per_zone s) zs 0;
  }

  module _ (is zs : List Bits) (imap : MapsRead s s.sb.s_imap_blocks 2 is)
      (zmap : MapsRead s s.sb.s_zmap_blocks (2 + s.sb.s_imap_blocks) zs) where
    some_imap : 0 < s.sb.s_imap_blocks * bits_per_zone s
    some_imap = omega (arith, v.inodes)

    some_zmap : 0 < s.sb.s_zmap_blocks * bits_per_zone s
    some_zmap = omega (arith, v.zones, v.some_zone)

    zone_bits :
        (n : ℕ)
        → n < s.sb.s_zmap_blocks * bits_per_zone s
        → busy (with_maps is zs) n
          ≡ (if 0 == n then true else bit_on_disk s (2 + s.sb.s_imap_blocks) n)
    zone_bits = marked_bit s.sb.s_zmap_blocks (2 + s.sb.s_imap_blocks) zs zmap some_zmap

    inode_bits :
        (n : ℕ)
        → n < s.sb.s_imap_blocks * bits_per_zone s
        → used (with_maps is zs) n ≡ (if 0 == n then true else bit_on_disk s 2 n)
    inode_bits = marked_bit s.sb.s_imap_blocks 2 is imap some_imap

    zmap_length : length (mark ops (bits_per_zone s) zs 0) ≡ s.sb.s_zmap_blocks
    zmap_length = length-set zs _ _ ∙ zmap.1

    imap_length : length (mark ops (bits_per_zone s) is 0) ≡ s.sb.s_imap_blocks
    imap_length = length-set is _ _ ∙ imap.1

    with_maps-ZmapOk : ZmapOk (with_maps is zs)
    with_maps-ZmapOk = record {
      sized = zmap_length;
      zero_taken = zone_bits 0 some_zmap;
      first_pos = v.first_pos;
      enough = rw zmap_length v.zones;
      small = rw zmap_length v.zmap_small;
    }

    with_maps-ImapOk : ImapOk (with_maps is zs)
    with_maps-ImapOk = record {
      sized = imap_length;
      zero_used = inode_bits 0 some_imap;
      enough = rw imap_length v.inodes;
    }

    enough_imap : cominix_blocks_needed s.sb.s_ninodes (s_blocksize s) ≤ s.sb.s_imap_blocks
    unfolding cominix_blocks_needed
    enough_imap =
        let w : s_blocksize s * 8 ≡ bits_per_zone s = omega arith in
        rw w (
          needed-le (bits_per_zone s) w_pos s.sb.s_ninodes s.sb.s_imap_blocks
            (omega (arith, v.inodes))
            (omega (
              arith,
              v.imap_small,
              v.inodes,
              one_block (bits_per_zone s) w_pos 1 s.sb.s_imap_blocks (omega arith) some_imap,
            )))

    enough_zmap :
        cominix_blocks_needed (s.sb.s_nzones + 2 ^ 32 - s.sb.s_firstdatazone + 1) (s_blocksize s)
        ≤ s.sb.s_zmap_blocks
    unfolding cominix_blocks_needed
    enough_zmap =
        let w : s_blocksize s * 8 ≡ bits_per_zone s = omega arith in
        let zones = s.sb.s_nzones - s.sb.s_firstdatazone + 1 in
        let same : (s.sb.s_nzones + 2 ^ 32 - s.sb.s_firstdatazone + 1) % 2 ^ 32 ≡ zones % 2 ^ 32 =
          omega (arith, v.some_zone, v.zones, v.zmap_small) in
        rw (w, same)
          (needed-le (bits_per_zone s) w_pos zones s.sb.s_zmap_blocks (omega (arith, v.zones)) (
            omega (
              arith,
              v.zmap_small,
              v.zones,
              v.some_zone,
              one_block (bits_per_zone s) w_pos 1 s.sb.s_zmap_blocks (omega arith) some_zmap,
            )))

-- Let the super block's numbers be such that the first data zone is neither 0 nor past the zones,
-- that beside the first bit of each map there is a bit for every inode and every zone of the data
-- area, and that each map, the first data zone added for the zones, has fewer than 2 ^ 31 bits.
-- When there is memory for the maps and every bitmap block can be read, `fill_maps` goes on with
-- the root's inode, on a state with well-formed inode maps and zone maps. Each of their bits is as
-- on the device, but for the first bit of each map, which is set, and nothing else has changed.
pub fill_maps-ZmapOk :
    (ops : BitOps) (k : Vfs) (kzalloc_info : Bool) (kzalloc : ℕ → Bool)
    (sb_set_blocksize : ℕ → Option ℕ) (device_readable : ℕ → ℕ → Bool) (d_make_root : Inode → Bool)
    (s : Fs) (ret : ℕ) (alloc_new_esb : Bool)
    → GoodNumbers s
    → kzalloc ((s.sb.s_imap_blocks + s.sb.s_zmap_blocks) * 8) ≡ true
    → ((b : ℕ) → 2 ≤ b → b < 2 + s.sb.s_imap_blocks + s.sb.s_zmap_blocks → s.readable b ≡ true)
    → (s' : Fs) × (fill_maps ops k kzalloc_info kzalloc sb_set_blocksize device_readable d_make_root
          ret alloc_new_esb s
        ≡ fill_root ops k kzalloc_info kzalloc sb_set_blocksize device_readable d_make_root
            alloc_new_esb s')
      × ImapOk s'
      × ZmapOk s'
      × ((n : ℕ)
          → n < s.sb.s_imap_blocks * bits_per_zone s
          → used s' n ≡ (if 0 == n then true else bit_on_disk s 2 n))
      × ((n : ℕ)
          → n < s.sb.s_zmap_blocks * bits_per_zone s
          → busy s' n ≡ (if 0 == n then true else bit_on_disk s (2 + s.sb.s_imap_blocks) n))
      × (s' ≡ record s { s_imap = s'.s_imap; s_zmap = s'.s_zmap })
unfolding fill_maps
fill_maps-ZmapOk ops k kzalloc_info kzalloc sb_set_blocksize device_readable d_make_root s ret
      alloc_new_esb v memory readable =
    let (is, imap) =
      read_maps-MapsRead s s.sb.s_imap_blocks 2 (λ b lo hi. readable b lo (omega arith)) in
    let (zs, zmap) =
      read_maps-MapsRead s s.sb.s_zmap_blocks (2 + s.sb.s_imap_blocks)
        (λ b lo hi. readable b (omega arith) hi) in
    let w = bits_per_zone s in
    let is_some : 0 < length is = omega (
      arith,
      imap.1,
      blocks_pos w (w_pos ops s v) s.sb.s_imap_blocks (some_imap ops s v is zs imap zmap),
    ) in
    let zs_some : 0 < length zs = omega (
      arith,
      zmap.1,
      blocks_pos w (w_pos ops s v) s.sb.s_zmap_blocks (some_zmap ops s v is zs imap zmap),
    ) in
    (
      with_maps ops s v is zs,
      rw (
        memory,
        imap.0,
        zmap.0,
        map_at-get_or is 0 (record s { s_imap = is; s_zmap = zs }) is_some,
        map_at-get_or zs 0
            (record s { s_imap = set is 0 (ops.set_bit 0 (get_or is 0 (λ _. true))); s_zmap = zs })
            zs_some,
        le→ltb s.sb.s_imap_blocks _ (enough_imap ops s v is zs imap zmap),
        le→ltb s.sb.s_zmap_blocks _ (enough_zmap ops s v is zs imap zmap),
        ← mark-first w (w_pos ops s v) ops is,
        ← mark-first w (w_pos ops s v) ops zs,
      ),
      with_maps-ImapOk ops s v is zs imap zmap,
      with_maps-ZmapOk ops s v is zs imap zmap,
      inode_bits ops s v is zs imap zmap,
      zone_bits ops s v is zs imap zmap,
      refl,
    )
