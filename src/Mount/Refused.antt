-- ===== src/Mount/Refused.antt =====
-- `cominix_fill_super` of src/inode.c where a bitmap block cannot be read.
use mathlib.Core.Bool.{false≢true}
use cominix_fs.Prelude.{
  ℕ, zero, suc, ◌+◌, ◌*◌, ◌<◌, ◌≤◌, ◌≢◌, ◌≡◌, refl, sym, ap, ◌∙◌, Bool, true, false, Option, none,
  some, inl, inr, List, [], ◌∷◌, ◌/◌, ◌^◌, ==_iff, arith, ltb, le→ltb, ltb→lt, Bool-cases,
  Option-cases,
}
use cominix_fs.BitOps.{BitOps}
use cominix_fs.Fs.{Bits, Fs, ok, at, sb_bread}
use cominix_fs.Fs.Device.{sb_bread-ok}
use cominix_fs.Inode.{Inode}
use cominix_fs.Mount.FillSuper.{
  SuperBlock, load_super, info_of, set_info, set_nzones, bits_of, read_maps, fill_maps, refused,
  magic, in_blocks, set_blocksize, cominix_fill_super,
}
use cominix_fs.Mount.{set_table, cominix_check_superblock, cminix_fill_extra_super}
use cominix_fs.Namei.{Vfs}

sb_bread-none : (s : Fs) (b : ℕ) → s.readable b ≡ false → sb_bread b s ≡ ok none s
unfolding sb_bread
sb_bread-none s b h = rw h

-- the blocks are read or not, and nothing changes
read_maps-same :
    (s : Fs) (rounds block : ℕ) → (o : Option (List Bits)) × (read_maps rounds block s ≡ ok o s)
unfolding read_maps
read_maps-same s zero block = (some [], refl)
read_maps-same s (suc rounds) block = elim (Bool-cases (s.readable block)) [
  | inr broken ↦ (none, rw (sb_bread-none s block broken))
  | inl good ↦
      let (o, run) = read_maps-same s rounds (block + 1) in
      elim (Option-cases o) [
        | inl e ↦ (none, rw (sb_bread-ok s block good, run, e))
        | inr (maps, e) ↦
            (some (bits_of s.disk block ∷ maps), rw (sb_bread-ok s block good, run, e))
      ]
]

module _ (s : Fs) (b : ℕ) (unreadable : s.readable b ≡ false) where
  read_maps-none :
      (rounds block : ℕ) → block ≤ b → b < block + rounds → read_maps rounds block s ≡ ok none s
  unfolding read_maps
  read_maps-none zero block lo hi = absurd (omega arith)
  read_maps-none (suc rounds) block lo hi = elim (Bool-cases (s.readable block)) [
    | inr broken ↦ rw (sb_bread-none s block broken)
    | inl good ↦
        let ne : block ≢ b = λ e. false≢true (sym unreadable ∙ ap s.readable (sym e) ∙ good) in
        let next : block + 1 ≤ b = ground arith in
        rw (sb_bread-ok s block good, read_maps-none rounds (block + 1) next (omega arith))
  ]

  pub fill_maps-refused :
      (ops : BitOps) (k : Vfs) (kzalloc_info : Bool) (kzalloc : ℕ → Bool)
      (sb_set_blocksize : ℕ → Option ℕ) (device_readable : ℕ → ℕ → Bool)
      (d_make_root : Inode → Bool) (ret : ℕ) (alloc_new_esb : Bool)
      → kzalloc ((s.sb.s_imap_blocks + s.sb.s_zmap_blocks) * 8) ≡ true
      → 2 ≤ b
      → b < 2 + s.sb.s_imap_blocks + s.sb.s_zmap_blocks
      → fill_maps ops k kzalloc_info kzalloc sb_set_blocksize device_readable d_make_root ret
          alloc_new_esb s
        ≡ ok (refused ret) s
  unfolding fill_maps
  fill_maps-refused ops k kzalloc_info kzalloc sb_set_blocksize device_readable d_make_root ret
        alloc_new_esb memory lo hi =
      elim (Bool-cases (ltb b (2 + s.sb.s_imap_blocks))) [
        | inl early ↦ rw (memory, read_maps-none s.sb.s_imap_blocks 2 lo (ltb→lt b _ early))
        | inr late ↦
            let above : 2 + s.sb.s_imap_blocks ≤ b = ground arith in
            let zmap = read_maps-none s.sb.s_zmap_blocks (2 + s.sb.s_imap_blocks) above hi in
            let (o, run) = read_maps-same s s.sb.s_imap_blocks 2 in
            elim (Option-cases o) [
              | inl e ↦ rw (memory, run, e)
              | inr (maps, e) ↦ rw (memory, run, e, zmap)
            ]
      ]

-- the hash table and the heap's break of a device that has no extra super block
abbrev table_place : ℕ
table_place = 40 * 2 ^ 20

abbrev first_brk : ℕ
first_brk = 40 * 2 ^ 20 + 32 * 2 ^ 10

module _ (ops : BitOps) (k : Vfs) (kzalloc : ℕ → Bool) (sb_set_blocksize : ℕ → Option ℕ)
    (device_readable : ℕ → ℕ → Bool) (d_make_root : Inode → Bool) (s : Fs) (bits bits' : ℕ)
    (m : SuperBlock) where
  -- the device in blocks of 1024 bytes, in which the super block is read
  abbrev first_view : Fs
  first_view = in_blocks ops k true kzalloc sb_set_blocksize device_readable d_make_root bits s

  -- the device in blocks of its own size, with the info of the super block and a new hash table
  abbrev own_view : Fs
  own_view = set_table table_place (32 * 2 ^ 10) first_brk (
      in_blocks ops k true kzalloc sb_set_blocksize device_readable d_make_root bits'
        (set_info (info_of m) first_view))

  set_blocksize-some :
      (size : ℕ) (t : Fs)
      → sb_set_blocksize size ≡ some bits'
      → set_blocksize ops k true kzalloc sb_set_blocksize device_readable d_make_root size t
        ≡ in_blocks ops k true kzalloc sb_set_blocksize device_readable d_make_root bits' t
  unfolding set_blocksize
  set_blocksize-some size t e = rw (e, set_blocksize)

  -- Let the device be readable where the super block lies, and the super block be one of this file
  -- system, with zones of one block, a block size that the device takes, numbers that pass the
  -- check, no extra super block, and zones up to 40 MB at least; and let there be memory. When some
  -- block of the bitmaps cannot be read, `cominix_fill_super` refuses the mount with the result 0.
  pub cominix_fill_super-refused :
      (b : ℕ)
      → sb_set_blocksize 1024 ≡ some bits
      → device_readable bits 1 ≡ true
      → load_super (at 1 0) first_view ≡ ok m first_view
      → m.s_magic ≡ magic
      → m.s_log_zone_size ≡ 0
      → sb_set_blocksize m.s_blocksize ≡ some bits'
      → cominix_check_superblock (info_of m) m.s_max_size ≡ true
      → (info_of m).extra_sb_location ≡ 0
      → 40 * 2 ^ 20 / 2 ^ bits' ≤ m.s_zones
      → kzalloc ((m.s_imap_blocks + m.s_zmap_blocks) * 8) ≡ true
      → 2 ≤ b
      → b < 2 + m.s_imap_blocks + m.s_zmap_blocks
      → device_readable bits' b ≡ false
      → (s' : Fs) × (cominix_fill_super ops k true kzalloc sb_set_blocksize device_readable
            d_make_root s
          ≡ ok (refused 0) s')
  unfolding cominix_fill_super cminix_fill_extra_super info_of in_blocks
  cominix_fill_super-refused b first readable loaded is_magic unit second checked fresh zones memory
        lo hi unreadable =
      let t = set_nzones (table_place / 2 ^ bits') own_view in
      (
        t,
        rw
            (
              first,
              sb_bread-ok first_view 1 readable,
              loaded,
              (==_iff m.s_magic magic).1 is_magic,
              (==_iff m.s_log_zone_size 0).1 unit,
              checked,
              set_blocksize-some m.s_blocksize (set_info (info_of m) first_view) second,
              (==_iff (info_of m).extra_sb_location 0).1 fresh,
              le→ltb m.s_zones (table_place / 2 ^ bits') zones,
            )
            (fill_maps-refused t b unreadable ops k true kzalloc sb_set_blocksize device_readable
              d_make_root 0 true memory lo hi),
      )
