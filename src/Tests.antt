-- ===== src/Tests.antt =====
-- Concrete devices, and the theorems at them.
mod Bits
mod Chunks
mod Zones
mod Lists
mod Cuts
mod Files
mod Dirs
mod Names
mod Trees
mod Roundtrip
mod Mounts
use cominix_fs.Prelude.{ℕ, ◌*◌, ◌^◌, ◌<◌, ◌≡◌, refl, Bool, true, [], ◌∷◌, arith, ltb}
use cominix_fs.Fs.{Fs, SbInfo}
use cominix_fs.Fs.Device.{IsDevice}

-- Four zones of 512 bytes, a hash table of 8 slots behind them, and chunks up to 8 KB.
abbrev pub small_sb : SbInfo
small_sb = record {
  s_ninodes = 8;
  s_nzones = 4;
  s_imap_blocks = 1;
  s_zmap_blocks = 1;
  s_firstdatazone = 1;
  s_log_zone_size = 0;
  s_dirsize = 64;
  s_namelen = 60;
  s_mount_state = 1;
  s_version = 3;
  extra_sb_location = 1;
  hashtable = 2048;
  hashtable_size = 64;
  heap_brk = 2112;
  max_brk = 8192;
}

-- All zeroes; bits 0 and 1 of the zone map are taken.
abbrev pub small_fs : Fs
small_fs = record {
  s_blocksize_bits = 9;
  readable = λ b. true;
  sb = small_sb;
  disk = λ b o. 0;
  s_imap = [];
  s_zmap = (λ n. ltb n 2) ∷ [];
}

pub small-IsDevice : IsDevice 9 (λ b. true) 8192
small-IsDevice = record {
  bits_lo = omega arith;
  bits_hi = omega arith;
  blocks = λ b h. refl;
  small = omega arith;
}
