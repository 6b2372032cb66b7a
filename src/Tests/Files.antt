-- ===== src/Tests/Files.antt =====
-- A chunked file, an inode on disk, an extra super block and a path.
use cominix_fs.Prelude.{
  ℕ, ◌+◌, ◌-◌, ◌^◌, ◌<◌, ◌≤◌, ◌≡◌, refl, true, [], ◌∷◌, ◌==◌, arith, if◌then◌else◌, take, drop,
}
use cominix_fs.Chunk.{chunk_fill_hashtable, head_bytes}
use cominix_fs.Chunk.Alloc.{HeapOk, next_brk}
use cominix_fs.Chunk.{chunk_start}
use cominix_fs.Chunk.Fill.{Fits, filled}
use cominix_fs.Chunk.Table.{Stored, IsStored}
use cominix_fs.Disk.{byte_at, flat_read, from_le, to_le}
use cominix_fs.File.{get_list_head, chunked_file_read}
use cominix_fs.File.Read.{IsChunkedFile, content, chunked_file_read-content}
use cominix_fs.Fs.{Fs, ok, ◌>>=◌}
use cominix_fs.Inode.{
  Inode, FileType, regular, inode, other_operations, inode_is_chunked, cominix_set_inode,
  v2_cominix_iget, v2_cominix_update_inode,
}
use cominix_fs.Inode.Encoding.{HasInode, Encodable, read_back, iget-update_inode}
use cominix_fs.Itree.{pos, block_to_path}
use cominix_fs.Itree.Path.{IsPath, block_of_path, block_to_path-IsPath}
use cominix_fs.LinkedList.Search.{Entries, entry_at, entries_of}
use cominix_fs.LinkedList.{entry_of}
use cominix_fs.Mount.{cminix_fill_extra_super}
use cominix_fs.Mount.ExtraSuper.{OnDisk, fill_extra-fill_hashtable}
use cominix_fs.Tests.{small_fs, small_sb, small-IsDevice}

abbrev byte_of : ℕ → ℕ → ℕ
byte_of b o =
    if b == 1
    then (if o == 1
        then 8
        else if o == 8
        then 64
        else if o == 16
        then 0x40
        else if o == 17
        then 8
        else 0)
    else if b == 2
    then (if o == 0 then 0x40 else if o == 1 then 8 else if o == 8 then 3 else 0)
    else if b == 4
    then (if o == 64
        then 13
        else if o == 72
        then 3
        else if o == 88
        then 7
        else if o == 89
        then 8
        else if o == 90
        then 9
        else 0)
    else 0

-- The extra super block is block 1. Block 2 lists one chunk of 3 bytes at 2112.
abbrev pub file_fs : Fs
file_fs = record small_fs { sb = record small_sb { heap_brk = 2139 }; disk = byte_of }

pub file_HeapOk : HeapOk file_fs
file_HeapOk = record {
  device = small-IsDevice;
  extra = omega arith;
  zones = omega arith;
  aligned = refl;
  slots = omega arith;
  above = omega arith;
  below = omega arith;
  addressable = omega arith;
}

abbrev pub chunk : Stored
chunk = record {
  place = 2112;
  head = record { hash = 13; chunk_length = 3; refcount = 0; flags = 0; next = 0 };
  payload = 7 ∷ 8 ∷ 9 ∷ [];
}

chunk-IsStored : IsStored file_fs chunk
unfolding flat_read byte_at head_bytes to_le
chunk-IsStored = record {
  lo = omega arith;
  hi = omega arith;
  in_block = omega arith;
  hash_small = omega arith;
  next_small = omega arith;
  sized = refl;
  head_at = refl;
  payload_at = refl;
}

abbrev pub file : Inode
file = record {
  i_ino = 2;
  i_mode = 0x81a4;
  i_uid = 0;
  i_gid = 0;
  i_nlink = 1;
  i_size = 3;
  i_atime = 0;
  i_mtime = 0;
  i_ctime = 0;
  i_blocks = 0;
  i_rdev = 0;
  i_data = (2 ^ 32 - 1) ∷ 2 ∷ 1 ∷ 2 ∷ 0 ∷ 0 ∷ 0 ∷ 0 ∷ 0 ∷ (2 ^ 32 - 1) ∷ [];
  i_op = other_operations;
  i_fop = other_operations;
  a_ops = other_operations;
}

file_Entries : Entries file_fs 2 0 (entry_of 2112 3 ∷ [])
unfolding entry_at flat_read byte_at from_le
file_Entries = (omega arith, refl, omega arith, (omega arith, λ h. refl))

file-IsChunkedFile : IsChunkedFile file_fs file (chunk ∷ []) ((entry_of 2112 3 ∷ []) ∷ [])
unfolding content inode_is_chunked get_list_head flat_read byte_at from_le entries_of
file-IsChunkedFile = record {
  marked = refl;
  listed = (refl, file_Entries, refl);
  entries = refl;
  stored = (chunk-IsStored, omega arith, tt);
  sized = refl;
  size_small = omega arith;
}

chunked_file_read-content_example :
    (n : ℕ) × (chunked_file_read (λ c k. true) file 5 1 file_fs
      ≡ ok (take n (drop 1 (content (chunk ∷ []))), 1 + n) file_fs)
    × (n ≤ 5)
    × (1 + n ≤ 3)
    × (0 < 5 → 0 < n)
chunked_file_read-content_example =
    chunked_file_read-content (λ c k. true) file_fs file (chunk ∷ []) ((entry_of 2112 3 ∷ []) ∷ [])
      5 1 file_HeapOk file-IsChunkedFile (λ c n h. refl) (omega arith)

abbrev extra_fs : Fs
extra_fs = record small_fs { disk = byte_of }

extra_OnDisk : OnDisk extra_fs
unfolding flat_read byte_at from_le
extra_OnDisk = record { located = λ e. omega arith; table = refl; size = refl; brk = refl }

extra_Fits : Fits extra_fs (chunk.head) (7 ∷ 8 ∷ 9 ∷ [])
unfolding next_brk chunk_start
extra_Fits = record {
  heap = record {
    device = small-IsDevice;
    extra = omega arith;
    zones = omega arith;
    aligned = refl;
    slots = omega arith;
    above = omega arith;
    below = omega arith;
    addressable = omega arith;
  };
  hash_small = omega arith;
  some_data = omega arith;
  sized = refl;
  room = omega arith;
}

fill_extra-fill_hashtable_example :
    (chunk_fill_hashtable chunk.head (7 ∷ 8 ∷ 9 ∷ []) >>= λ _. cminix_fill_extra_super) extra_fs
    ≡ ok 0 (filled extra_fs chunk.head (7 ∷ 8 ∷ 9 ∷ []) extra_Fits)
fill_extra-fill_hashtable_example =
    fill_extra-fill_hashtable extra_fs chunk.head (7 ∷ 8 ∷ 9 ∷ []) extra_Fits extra_OnDisk

-- every mode is a regular file's, and ids and device numbers are encoded as they are
abbrev all_regular : ℕ → FileType
all_regular m = regular

abbrev special : ℕ → Inode → Inode
special rdev i = i

abbrev as_is : ℕ → ℕ
as_is n = n

file_HasInode : HasInode small_fs 2
file_HasInode = record {
  bits = omega arith;
  not_zero = omega arith;
  in_range = omega arith;
  readable = refl;
}

file-Encodable : Encodable file
file-Encodable = record {
  mode = omega arith;
  nlink = omega arith;
  uid = omega arith;
  gid = omega arith;
  size = omega arith;
  atime = omega arith;
  mtime = omega arith;
  ctime = omega arith;
  ten = refl;
  zones = (
    omega arith,
    (
      omega arith,
      (
        omega arith,
        (
          omega arith,
          (
            omega arith,
            (omega arith, (omega arith, (omega arith, (omega arith, (omega arith, tt))))),
          ),
        ),
      ),
    ),
  );
}

iget-update_inode_example :
    (s' : Fs) × ((v2_cominix_update_inode all_regular special as_is as_is as_is as_is file >>= λ _.
    v2_cominix_iget all_regular special as_is as_is as_is as_is file)
        small_fs
      ≡ ok
          (inode (
            cominix_set_inode all_regular special as_is as_is as_is as_is
              (read_back file file)
              (2 ^ 32 - 1)))
          s')
iget-update_inode_example =
    iget-update_inode all_regular special as_is as_is as_is as_is small_fs file file file_HasInode
      file-Encodable refl refl refl (omega arith) refl

-- block 1000 of a file with blocks of 1024 bytes, behind two levels of pointers
block_to_path-IsPath_example :
    IsPath 256 (block_to_path 10 (2 ^ 31) (pos 1000))
    × (block_of_path 256 (block_to_path 10 (2 ^ 31) (pos 1000)) ≡ 1000)
block_to_path-IsPath_example =
    block_to_path-IsPath 10 (omega arith) (omega arith) (2 ^ 31) 1000 (omega arith) (omega arith)
      (omega arith)
