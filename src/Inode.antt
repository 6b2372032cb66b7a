-- ===== src/Inode.antt =====
-- src/inode.c: inodes in memory and on disk, and which operations an inode gets.
pub mod Encoding
use cominix_fs.Prelude.{
  ℕ, zero, suc, ◌+◌, ◌-◌, ◌^◌, Bool, true, false, not, ◌&&◌, ◌||◌, Option, none, some, List, [],
  ◌∷◌, ◌++◌, ◌==◌, if◌then◌else◌, take, drop, get_or, set,
}
use cominix_fs.Bitmap.{cominix_v2_raw_inode}
use cominix_fs.Disk.{to_le, from_le}
use cominix_fs.Fs.{M, pure, ◌>>=◌, ◌>>◌, Ptr, load_bytes, store_bytes}

-- `struct cominix2_inode`, an inode on disk
pub record RawInode : Type 0 where
  pub mode : ℕ
  pub nlinks : ℕ
  pub uid : ℕ
  pub gid : ℕ
  pub size : ℕ
  pub atime : ℕ
  pub mtime : ℕ
  pub ctime : ℕ
  pub zone : List ℕ

-- its 64 bytes, and back
unfoldable pub zone_bytes : List ℕ → List ℕ
zone_bytes [] = []
zone_bytes (z ∷ zs) = to_le 4 z ++ zone_bytes zs

unfoldable pub raw_bytes : RawInode → List ℕ
raw_bytes r =
    to_le 2 r.mode
    ++ (to_le 2 r.nlinks
        ++ (to_le 2 r.uid
            ++ (to_le 2 r.gid
                ++ (to_le 4 r.size
                    ++ (to_le 4 r.atime
                        ++ (to_le 4 r.mtime ++ (to_le 4 r.ctime ++ zone_bytes r.zone)))))))

unfoldable pub words : ℕ → List ℕ → List ℕ
words zero xs = []
words (suc n) xs = from_le (take 4 xs) ∷ words n (drop 4 xs)

unfoldable pub raw_of : List ℕ → RawInode
raw_of xs = record {
  mode = from_le (take 2 xs);
  nlinks = from_le (take 2 (drop 2 xs));
  uid = from_le (take 2 (drop 4 xs));
  gid = from_le (take 2 (drop 6 xs));
  size = from_le (take 4 (drop 8 xs));
  atime = from_le (take 4 (drop 12 xs));
  mtime = from_le (take 4 (drop 16 xs));
  ctime = from_le (take 4 (drop 20 xs));
  zone = words 10 (drop 24 xs);
}

-- the tables of operations that an inode can point at
pub data OpTable : Type 0 where
  cominix_file_inode_operations cominix_dir_inode_operations cominix_symlink_inode_operations :
      OpTable
  cominix_file_operations chunked_file_operations cominix_dir_operations : OpTable
  cominix_aops empty_aops : OpTable
  other_operations : OpTable

-- `struct inode` and `struct cominix_inode_info`, as far as the file system uses them. `i_data` is
-- `u.i2_data`.
pub record Inode : Type 0 where
  pub i_ino : ℕ
  pub i_mode : ℕ
  pub i_uid : ℕ
  pub i_gid : ℕ
  pub i_nlink : ℕ
  pub i_size : ℕ
  pub i_atime : ℕ
  pub i_mtime : ℕ
  pub i_ctime : ℕ
  pub i_blocks : ℕ
  pub i_rdev : ℕ
  pub i_data : List ℕ
  pub i_op : OpTable
  pub i_fop : OpTable
  pub a_ops : OpTable

-- the kind of file that a mode stands for: `S_ISREG` and its like
pub data FileType : Type 0 where
  regular directory symlink char_device block_device other_type : FileType

pub data Errno : Type 0 where
  eio estale : Errno

pub data Result : Type 0 where
  inode : Inode → Result
  error : Errno → Result

-- `(u32)-1` in the first and the last zone marks a chunked inode.
unfoldable pub switch_inode_to_chunked : Inode → Inode
switch_inode_to_chunked i = record i { i_data = set (set i.i_data 0 (2 ^ 32 - 1)) 9 (2 ^ 32 - 1) }

unfoldable pub inode_is_chunked : Inode → Bool
inode_is_chunked i = (get_or i.i_data 0 0 == 2 ^ 32 - 1) && (get_or i.i_data 9 0 == 2 ^ 32 - 1)

abbrev pub is_device : FileType → Bool
is_device char_device = true
is_device block_device = true
is_device regular = false
is_device directory = false
is_device symlink = false
is_device other_type = false

-- What the kernel gives: the kind of a mode, `init_special_inode`, the encoding of device numbers,
-- and the 16-bit form of user and group ids. Times are in seconds.
module _ (file_type : ℕ → FileType) (init_special_inode : ℕ → Inode → Inode)
    (old_decode_dev old_encode_dev : ℕ → ℕ) (fs_high2lowuid fs_high2lowgid : ℕ → ℕ) where
  unfoldable pub cominix_set_inode : Inode → ℕ → Inode
  cominix_set_inode i rdev = elim (file_type i.i_mode) [
    | regular ↦
        if inode_is_chunked i
        then record i {
          i_op = cominix_file_inode_operations;
          i_fop = chunked_file_operations;
          a_ops = empty_aops;
        }
        else record i {
          i_op = cominix_file_inode_operations;
          i_fop = cominix_file_operations;
          a_ops = cominix_aops;
        }
    | directory ↦ record i {
      i_op = cominix_dir_inode_operations;
      i_fop = cominix_dir_operations;
      a_ops = cominix_aops;
    }
    | symlink ↦ record i { i_op = cominix_symlink_inode_operations; a_ops = cominix_aops }
    | char_device ↦ init_special_inode rdev i
    | block_device ↦ init_special_inode rdev i
    | other_type ↦ init_special_inode rdev i
  ]

  -- the fields that are copied from disk
  unfoldable pub copy_raw : RawInode → Inode → Inode
  copy_raw raw i = record i {
    i_mode = raw.mode;
    i_uid = raw.uid;
    i_gid = raw.gid;
    i_nlink = raw.nlinks;
    i_size = raw.size;
    i_mtime = raw.mtime;
    i_atime = raw.atime;
    i_ctime = raw.ctime;
    i_blocks = 0;
    i_data = raw.zone ++ drop 10 i.i_data;
  }

  -- `i` is the new inode in memory, with its number.
  unfoldable pub v2_cominix_iget : Inode → M Result
  v2_cominix_iget i = do
    raw_inode ← cominix_v2_raw_inode i.i_ino
    elim raw_inode [
      | none ↦ pure (error eio)
      | some p ↦ do
        bytes ← load_bytes p 64
        let raw = raw_of bytes
        if raw.nlinks == 0
            then pure (error estale)
            else pure
                (inode (cominix_set_inode (copy_raw raw i) (old_decode_dev (get_or raw.zone 0 0))))
    ]

  -- the disk inode of `i`; a device keeps the old zones but for the first
  unfoldable pub updated : RawInode → Inode → RawInode
  updated old i = record {
    mode = i.i_mode;
    nlinks = i.i_nlink;
    uid = fs_high2lowuid i.i_uid;
    gid = fs_high2lowgid i.i_gid;
    size = i.i_size;
    atime = i.i_atime;
    mtime = i.i_mtime;
    ctime = i.i_ctime;
    zone =
        if is_device (file_type i.i_mode)
        then set old.zone 0 (old_encode_dev i.i_rdev)
        else take 10 i.i_data;
  }

  -- The buffer of the disk inode, or NULL. The stores cut each field to its width.
  unfoldable pub v2_cominix_update_inode : Inode → M (Option ℕ)
  v2_cominix_update_inode i = do
    raw_inode ← cominix_v2_raw_inode i.i_ino
    elim raw_inode [
      | none ↦ pure none
      | some p ↦ do
        bytes ← load_bytes p 64
        store_bytes p (raw_bytes (updated (raw_of bytes) i))
        pure (some p.block)
    ]

  -- `sync_all` is `WB_SYNC_ALL`; `sync_dirty_buffer` says whether a buffer is up to date after it.
  -- The result is the error, if any.
  unfoldable pub cominix_write_inode : (ℕ → Bool) → Bool → Inode → M (Option Errno)
  cominix_write_inode sync_dirty_buffer sync_all i = do
    bh ← v2_cominix_update_inode i
    elim bh [
      | none ↦ pure (some eio)
      | some b ↦ pure (if sync_all && not (sync_dirty_buffer b) then some eio else none)
    ]
