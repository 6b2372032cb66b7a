-- ===== src/Mount.antt =====
-- src/inode.c: the extra super block, which keeps the hash table's place and the heap's break from
-- one mount to the next, and the checks and states of a mount.
pub mod ExtraSuper
pub mod FillSuper
pub mod Maps
pub mod FilledMaps
pub mod Refused
use cominix_fs.Prelude.{
  ℕ, zero, suc, ◌+◌, ◌-◌, ◌*◌, ◌/◌, ◌%◌, ◌^◌, Bool, true, false, not, ◌&&◌, ◌||◌, Option, none,
  some, List, ltb, ◌==◌, if◌then◌else◌, replicate,
}
use cominix_fs.BitOps.{BitOps}
use cominix_fs.Bitmap.{cominix_new_block_sb, cominix_count_free_blocks, cominix_count_free_inodes}
use cominix_fs.Chunk.{chunk_reset_hashtable}
use cominix_fs.Fs.{
  is_null, Fs, SbInfo, s_blocksize, M, bug, oops, pure, ◌>>=◌, ◌>>◌, get, modify, bug_on, Ptr,
  shift, store_bytes, load_le, store_le, b_data, load_block,
}

abbrev pub set_table : ℕ → ℕ → ℕ → Fs → Fs
set_table table size brk s = record s {
  sb = record (s.sb) { hashtable = table; hashtable_size = size; heap_brk = brk };
}

-- `struct cminix_extra_super_block` has its fields at 0, 8 and 16. Without an extra super block
-- the table is put at 40 MB, with 32 KB. The result is 0.
unfoldable pub cminix_fill_extra_super : M ℕ
cminix_fill_extra_super = do
  s ← get
  if s.sb.extra_sb_location == 0
      then (do modify (set_table (40 * 2 ^ 20) (32 * 2 ^ 10) (40 * 2 ^ 20 + 32 * 2 ^ 10)); pure 0)
      else do
        bh ← load_block s.sb.extra_sb_location
        bug_on (is_null bh)
        esb ← b_data bh
        hashtable_location ← load_le 8 esb
        size ← load_le 4 (shift esb 8)
        brk ← load_le 8 (shift esb 16)
        modify (set_table hashtable_location size brk)
        pure 0

abbrev set_location : ℕ → Fs → Fs
set_location esb_loc s = record s { sb = record (s.sb) { extra_sb_location = esb_loc } }

-- `m3s` points at the super block, whose `s_pad0` and `s_pad1` lie at 4 and 14. The result is
-- whether a block was found for the extra super block.
unfoldable pub cminix_alloc_extra_super : BitOps → Ptr → M Bool
cminix_alloc_extra_super ops m3s = do
  s ← get
  bug_on (not (s.sb.extra_sb_location == 0))
  esb_loc ← cominix_new_block_sb ops
  if esb_loc == 0 then pure false else do
    modify (set_location esb_loc)
    bh ← load_block esb_loc
    bug_on (is_null bh)
    esb ← b_data bh
    store_bytes esb (replicate (s_blocksize s) 0)
    store_le 8 esb s.sb.hashtable
    store_le 4 (shift esb 8) s.sb.hashtable_size
    store_le 8 (shift esb 16) s.sb.heap_brk
    store_le 2 (shift m3s 4) (esb_loc % 2 ^ 16)
    store_le 2 (shift m3s 14) (esb_loc / 2 ^ 16)
    chunk_reset_hashtable
    pure true

-- `s_maxbytes` is that of the super block.
unfoldable pub cominix_check_superblock : SbInfo → ℕ → Bool
cominix_check_superblock sbi s_maxbytes =
    if (sbi.s_imap_blocks == 0) || (sbi.s_zmap_blocks == 0)
    then false
    else if (sbi.s_version == 1) && ltb ((7 + 512 + 512 * 512) * 1024) s_maxbytes
    then false
    else true

-- Bit 0 of a mount state is `MINIX_VALID_FS`.
abbrev pub valid_fs : ℕ → Bool
valid_fs state = state % 2 == 1

-- The mount's state, and `s_state` of the super block on disk.
pub record MountState : Type 0 where
  pub read_only : Bool
  pub version : ℕ
  pub mount_state : ℕ
  pub s_state : ℕ

same : Bool → Bool → Bool
same true b = b
same false b = not b

-- The caller sets the flag of the super block afterwards.
unfoldable pub cominix_remount : Bool → MountState → MountState
unfolding same
cominix_remount rdonly m =
    if same rdonly m.read_only
    then m
    else if rdonly
    then (if valid_fs m.s_state || not (valid_fs m.mount_state)
        then m
        else if m.version == 3
        then m
        else record m { s_state = m.mount_state })
    else if m.version == 3
    then record m { mount_state = 1 }
    else record m { mount_state = m.s_state; s_state = m.s_state / 2 * 2 }

-- `struct kstatfs`, less the numbers that the kernel gives
pub record Kstatfs : Type 0 where
  pub f_bsize : ℕ
  pub f_blocks : ℕ
  pub f_bfree : ℕ
  pub f_bavail : ℕ
  pub f_files : ℕ
  pub f_ffree : ℕ
  pub f_namelen : ℕ

unfoldable pub cominix_statfs : BitOps → M Kstatfs
cominix_statfs ops = do
  s ← get
  let zones = (s.sb.s_nzones + 2 ^ 64 - s.sb.s_firstdatazone) % 2 ^ 64
  free ← cominix_count_free_blocks ops
  inodes ← cominix_count_free_inodes ops
  pure (record {
    f_bsize = s_blocksize s;
    f_blocks = zones * 2 ^ s.sb.s_log_zone_size % 2 ^ 64;
    f_bfree = free;
    f_bavail = free;
    f_files = s.sb.s_ninodes;
    f_ffree = inodes;
    f_namelen = s.sb.s_namelen;
  })
