-- ===== src/Tests/Roundtrip.antt =====
-- A file of one byte, chunked on the small device and read back; and its list.
use cominix_fs.Prelude.{
  ℕ, zero, suc, ◌+◌, ◌%◌, ◌^◌, ◌<◌, ◌≤◌, ◌≡◌, refl, sym, ◌∙◌, true, some, List, [], ◌∷◌, arith,
  take, drop, inl, ltb,
}
use cominix_fs.Bitmap.Maps.{bit_at}
use cominix_fs.Cdc.{cdc_get_chunk_size}
use cominix_fs.Disk.{to_le, from_le, flat_read, byte_at}
use cominix_fs.File.{get_list_head, chunk_file, chunked_file_read, first}
use cominix_fs.File.Cut.{Promises}
use cominix_fs.File.Replace.{set_list}
use cominix_fs.File.Begin.{HasZones}
use cominix_fs.File.Roundtrip.{chunked_file_read-chunk_file}
use cominix_fs.File.Store.{Store, hash_of}
use cominix_fs.Fs.{Fs, ok}
use cominix_fs.Inode.{inode_is_chunked, Inode, other_operations, switch_inode_to_chunked}
use cominix_fs.LinkedList.Append.{Guarded}
use cominix_fs.Chunk.Alloc.{HeapOk}
use cominix_fs.LinkedList.Grow.{Ready, Appended, ll_append-Appended}
use cominix_fs.LinkedList.Search.{entry_at, entries_of}
use cominix_fs.LinkedList.{entry_of}
use cominix_fs.Bitmap.Alloc.{ZmapOk}
use cominix_fs.Chunk.{head_bytes}
use cominix_fs.Chunk.Table.{Holds}
use cominix_fs.File.Others.{OwnedBlocks, chunk_file-IsChunkedFile}
use cominix_fs.File.Read.{IsChunkedFile, content}
use cominix_fs.Tests.Files.{file_fs, chunk, file, file_HeapOk}
use cominix_fs.Tests.Bits.{bit_ops}
use cominix_fs.Tests.Chunks.{small_HeapOk, small_Holds, empty}
use cominix_fs.Tests.Zones.{small_ZmapOk}
use cominix_fs.Tests.{small_fs}

abbrev one_byte : List ℕ
one_byte = 5 ∷ []

-- a digest that begins with the first byte
abbrev digest : List ℕ → List ℕ
digest [] = []
digest (x ∷ xs) = (x % 256) ∷ []

abbrev Occurs : List ℕ → Type 0
Occurs xs = xs ≡ one_byte

digest_small : (xs : List ℕ) → hash_of digest xs < 2 ^ 64
unfolding from_le
digest_small [] = omega arith
digest_small (x ∷ xs) = omega arith

promises :
    Promises
      (λ p n. some (take n (drop p one_byte)))
      (λ n. true)
      (λ xs. some (digest xs))
      bit_ops
      digest
      Occurs
      one_byte
unfolding cdc_get_chunk_size first
promises = record {
  reads = λ p n. refl;
  memory = λ n. refl;
  digests = λ xs. refl;
  hash_small = digest_small;
  apart = λ xs ys e e' same. e ∙ sym e';
  occur = λ p h. let z : p ≡ 0 = omega arith in rw z;
  size_small = omega arith;
}

small_Store : Store digest Occurs small_fs empty
small_Store = record { heap = small_HeapOk; holds = small_Holds; hashed = λ i h. tt }

small_Guarded : Guarded small_fs
unfolding bit_at
small_Guarded = refl

small_HasZones : HasZones small_fs (2 ∷ 3 ∷ []) 1
unfolding bit_at
small_HasZones = record {
  free = (
    omega arith,
    (omega arith, omega arith, refl),
    (omega arith, (omega arith, omega arith, refl), tt),
  );
  some_zone = omega arith;
  enough = omega arith;
}

abbrev plain : Inode
plain = record {
  i_ino = 2;
  i_mode = 0x81a4;
  i_uid = 0;
  i_gid = 0;
  i_nlink = 1;
  i_size = 1;
  i_atime = 0;
  i_mtime = 0;
  i_ctime = 0;
  i_blocks = 0;
  i_rdev = 0;
  i_data = 3 ∷ 0 ∷ 0 ∷ 0 ∷ 0 ∷ 0 ∷ 0 ∷ 0 ∷ 0 ∷ 0 ∷ 0 ∷ 0 ∷ 0 ∷ 0 ∷ 0 ∷ 0 ∷ [];
  i_op = other_operations;
  i_fop = other_operations;
  a_ops = other_operations;
}

chunked_file_read-chunk_file_example :
    (head : ℕ) × (end : ℕ) × (n : ℕ) × (s' : Fs) × (m : ℕ) × (chunk_file
        (λ p k. some (take k (drop p one_byte)))
        (λ k. true)
        (λ xs. some (digest xs))
        bit_ops
        1
        small_fs
      ≡ ok (some (head, end, n)) s')
    × (chunked_file_read (λ c k. true) (set_list head n end (switch_inode_to_chunked plain)) 4 0 s'
        ≡ ok (take m one_byte, 0 + m) s')
    × (0 < m)
    × (m ≤ 4)
    × (0 + m ≤ 1)
chunked_file_read-chunk_file_example =
    chunked_file_read-chunk_file (λ p k. some (take k (drop p one_byte))) (λ k. true)
      (λ xs. some (digest xs)) bit_ops digest Occurs one_byte promises small_fs empty small_Store
      small_ZmapOk small_Guarded (2 ∷ 3 ∷ []) small_HasZones (omega arith) plain (λ c k. true) 4 0
      (omega arith) refl (λ c n h. refl) (omega arith) (omega arith)

-- zone 2 is taken, and is the first block of an empty list
abbrev list_fs : Fs
list_fs = record small_fs { s_zmap = (λ n. ltb n 3) ∷ [] }

list_HeapOk : HeapOk list_fs
list_HeapOk = record {
  device = small_HeapOk.device;
  extra = omega arith;
  zones = omega arith;
  aligned = refl;
  slots = omega arith;
  above = omega arith;
  below = omega arith;
  addressable = omega arith;
}

list_Ready : Ready list_fs 2 2 [] [] (3 ∷ []) (0 + 1)
unfolding bit_at entry_at flat_read byte_at from_le
list_Ready = record {
  zmap = record {
    sized = refl;
    zero_taken = refl;
    first_pos = omega arith;
    enough = omega arith;
    small = omega arith;
  };
  guarded = refl;
  list = record {
    seg = refl;
    end_block = record {
      owned = (omega arith, omega arith, refl, λ z. omega arith);
      fits = omega arith;
      array = λ k h. refl;
      positive = tt;
      ends = refl;
    };
    begun = inl refl;
  };
  free = (omega arith, (omega arith, omega arith, refl), tt);
  room = omega arith;
}

ll_append-Appended_example : Appended bit_ops list_fs 2 2 [] [] (entry_of 2112 3) 0
ll_append-Appended_example =
    ll_append-Appended bit_ops list_fs list_HeapOk 2 2 [] [] (3 ∷ []) 0 list_Ready (entry_of 2112 3)
      (record { location_small = omega arith; size_small = omega arith; some_data = omega arith })

-- the device with a chunked file, whose list is in zone 2
abbrev kept_fs : Fs
kept_fs = record file_fs { s_zmap = (λ n. ltb n 3) ∷ [] }

kept_Holds : Holds kept_fs empty
unfolding flat_read byte_at from_le
kept_Holds zero h = refl
kept_Holds (suc zero) h = refl
kept_Holds (suc (suc zero)) h = refl
kept_Holds (suc (suc (suc zero))) h = refl
kept_Holds (suc (suc (suc (suc zero)))) h = refl
kept_Holds (suc (suc (suc (suc (suc zero))))) h = refl
kept_Holds (suc (suc (suc (suc (suc (suc zero)))))) h = refl
kept_Holds (suc (suc (suc (suc (suc (suc (suc zero))))))) h = refl
kept_Holds (suc (suc (suc (suc (suc (suc (suc (suc i)))))))) h = absurd (omega arith)

kept_Store : Store digest Occurs kept_fs empty
kept_Store = record {
  heap = record {
    device = file_HeapOk.device;
    extra = omega arith;
    zones = omega arith;
    aligned = refl;
    slots = omega arith;
    above = omega arith;
    below = omega arith;
    addressable = omega arith;
  };
  holds = kept_Holds;
  hashed = λ i h. tt;
}

kept_ZmapOk : ZmapOk kept_fs
unfolding bit_at
kept_ZmapOk = record {
  sized = refl;
  zero_taken = refl;
  first_pos = omega arith;
  enough = omega arith;
  small = omega arith;
}

kept_Guarded : Guarded kept_fs
unfolding bit_at
kept_Guarded = refl

kept_HasZones : HasZones kept_fs (3 ∷ []) 1
unfolding bit_at
kept_HasZones = record {
  free = (omega arith, (omega arith, omega arith, refl), tt);
  some_zone = omega arith;
  enough = omega arith;
}

kept-IsChunkedFile : IsChunkedFile kept_fs file (chunk ∷ []) ((entry_of 2112 3 ∷ []) ∷ [])
unfolding content inode_is_chunked get_list_head flat_read byte_at from_le entries_of entry_at
    head_bytes to_le
kept-IsChunkedFile = record {
  marked = refl;
  listed = (refl, (omega arith, refl, omega arith, (omega arith, λ h. refl)), refl);
  entries = refl;
  stored = (
    record {
      lo = omega arith;
      hi = omega arith;
      in_block = omega arith;
      hash_small = omega arith;
      next_small = omega arith;
      sized = refl;
      head_at = refl;
      payload_at = refl;
    },
    omega arith,
    tt,
  );
  sized = refl;
  size_small = omega arith;
}

kept-OwnedBlocks : OwnedBlocks kept_fs (get_list_head file) ((entry_of 2112 3 ∷ []) ∷ [])
unfolding get_list_head bit_at
kept-OwnedBlocks = ((omega arith, omega arith, refl, λ z. omega arith), tt)

chunk_file-IsChunkedFile_example :
    (head : ℕ) × (end : ℕ) × (n : ℕ) × (s' : Fs) × (chunk_file
        (λ p k. some (take k (drop p one_byte)))
        (λ k. true)
        (λ xs. some (digest xs))
        bit_ops
        1
        kept_fs
      ≡ ok (some (head, end, n)) s')
    × IsChunkedFile s' file (chunk ∷ []) ((entry_of 2112 3 ∷ []) ∷ [])
chunk_file-IsChunkedFile_example =
    chunk_file-IsChunkedFile (λ p k. some (take k (drop p one_byte))) (λ k. true)
      (λ xs. some (digest xs)) bit_ops digest Occurs one_byte promises kept_fs empty kept_Store
      kept_ZmapOk kept_Guarded (3 ∷ []) kept_HasZones (omega arith) file (chunk ∷ [])
      ((entry_of 2112 3 ∷ []) ∷ []) kept-IsChunkedFile kept-OwnedBlocks
