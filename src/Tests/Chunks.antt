-- ===== src/Tests/Chunks.antt =====
-- The chunk store on the small device.
use cominix_fs.Prelude.{
  none, replicate, take, ℕ, ◌+◌, ◌-◌, ◌*◌, ◌%◌, ◌^◌, ◌<◌, ◌≡◌, ◌≢◌, refl, true, some, List, [], ◌∷◌,
  arith,
}
use cominix_fs.Chunk.Alloc.{HeapOk, next_brk, fit_start, chunk_alloc-fit_start, chunk_start-wraps}
use cominix_fs.Chunk.Contract.{
  entry, chunk_copy_into_buffer-take, chunk_fill_hashtable-push, search-fill, search_other-fill,
}
use cominix_fs.Chunk.Fill.{Fits, push, fresh, filled, filled-HeapOk, fresh-IsStored}
use cominix_fs.Chunk.Reset.{chunk_reset_hashtable-Holds}
use cominix_fs.Chunk.Search.{find_hash, chunk_search_hashtable-find}
use cominix_fs.Chunk.Storage.{bytes_of, write_data_storage-flat, read_data_storage-flat}
use cominix_fs.Chunk.Table.{Grows, Table, Holds}
use cominix_fs.Chunk.{
  ChunkHead, block_no, chunk_start, set_heap_brk, chunk_alloc, chunk_search_hashtable,
  chunk_reset_hashtable, write_data_storage, read_data_storage, chunk_fill_hashtable,
  chunk_copy_into_buffer,
}
use cominix_fs.Disk.{byte_at, flat_read, flat_write, from_le, to_le}
use cominix_fs.File.{place_chunk}
use cominix_fs.File.Place.{new_head, place_chunk-once}
use cominix_fs.Tests.Bits.{bit_ops}
use cominix_fs.Fs.{Fs, ok, with_disk, ◌>>=◌}
use cominix_fs.Tests.{small_fs, small-IsDevice}

pub small_HeapOk : HeapOk small_fs
small_HeapOk = record {
  device = small-IsDevice;
  extra = omega arith;
  zones = omega arith;
  aligned = refl;
  slots = omega arith;
  above = omega arith;
  below = omega arith;
  addressable = omega arith;
}

abbrev pub empty : Table
empty = λ i. []

pub small_Holds : Holds small_fs empty
unfolding flat_read byte_at from_le
small_Holds i h = refl

abbrev head : ChunkHead
head = record { hash = 13; chunk_length = 3; refcount = 0; flags = 0; next = 0 }

abbrev payload : List ℕ
payload = 7 ∷ 8 ∷ 9 ∷ []

small_Fits : Fits small_fs head payload
unfolding next_brk chunk_start
small_Fits = record {
  heap = small_HeapOk;
  hash_small = omega arith;
  some_data = omega arith;
  sized = refl;
  room = omega arith;
}

write_data_storage-flat_example :
    write_data_storage 1000 (some payload) 3 small_fs
    ≡ ok tt (with_disk small_fs (flat_write 512 (λ b o. 0) 1000 (bytes_of (some payload) 3)))
write_data_storage-flat_example =
    write_data_storage-flat small_fs 8192 1000 (some payload) 3 small-IsDevice (omega arith)
      (omega arith) (omega arith) (omega arith)

read_data_storage-flat_example :
    read_data_storage (λ c n. true) 500 600 small_fs
    ≡ ok (flat_read 512 (λ b o. 0) 500 600) small_fs
read_data_storage-flat_example =
    read_data_storage-flat (λ c n. true) small_fs 8192 500 600 small-IsDevice (λ c n h. refl)
      (omega arith) (omega arith) (omega arith)

small_room : fit_start 512 2112 + 24 + 3 < small_fs.sb.max_brk
unfolding fit_start
small_room = omega arith

-- a head at 2600 would straddle the block boundary at 3072 only from 3049 on
chunk_alloc-fit_start_example :
    chunk_alloc 3 small_fs
    ≡ ok (fit_start 512 2112) (
        with_disk (set_heap_brk (fit_start 512 2112 + 24 + 3) small_fs) (
          flat_write 512 small_fs.disk
            (small_fs.sb.extra_sb_location * 512 + 16)
            (to_le 8 (fit_start 512 2112 + 24 + 3))))
chunk_alloc-fit_start_example =
    chunk_alloc-fit_start small_fs small_HeapOk 3 (omega arith) small_room

chunk_search_hashtable-find_example :
    chunk_search_hashtable 13 small_fs ≡ ok (find_hash 13 (empty 5)) small_fs
chunk_search_hashtable-find_example =
    chunk_search_hashtable-find small_fs small_HeapOk empty 13 small_Holds

abbrev filled_fs : Fs
filled_fs = filled small_fs head payload small_Fits

chunk_fill_hashtable-push_example :
    (s' : Fs) × (chunk_fill_hashtable head payload small_fs ≡ ok (chunk_start small_fs 2112) s')
    × HeapOk s'
    × Grows small_fs s'
    × Holds s' (push 5 (fresh small_fs head payload small_Fits) empty)
chunk_fill_hashtable-push_example =
    chunk_fill_hashtable-push small_fs head payload empty small_Fits small_Holds

search-fill_example :
    (chunk_fill_hashtable head payload >>= λ _. chunk_search_hashtable 13) small_fs
    ≡ ok (chunk_start small_fs 2112) filled_fs
search-fill_example = search-fill small_fs head payload empty small_Fits small_Holds

search_other-fill_example :
    (chunk_fill_hashtable head payload >>= λ _. chunk_search_hashtable 21) small_fs
    ≡ ok (find_hash 21 (empty 5)) filled_fs
search_other-fill_example =
    search_other-fill small_fs head payload empty small_Fits small_Holds 21 (omega arith)

straddles : block_no small_fs (2 ^ 32 + 500) ≢ block_no small_fs ((2 ^ 32 + 500 + 24 - 1) % 2 ^ 64)
unfolding block_no
straddles e = omega arith

chunk_start-wraps_example : chunk_start small_fs (2 ^ 32 + 500) < 2 ^ 32 + 500
chunk_start-wraps_example = chunk_start-wraps small_fs (2 ^ 32 + 500) (omega arith) straddles

chunk_reset_hashtable-Holds_example :
    (s' : Fs) × (chunk_reset_hashtable small_fs ≡ ok tt s')
    × (s'.sb.heap_brk ≡ 2112)
    × Holds s' empty
chunk_reset_hashtable-Holds_example =
    chunk_reset_hashtable-Holds small_fs 8192 small-IsDevice (omega arith) (omega arith)
      (omega arith) (omega arith)

-- two bytes from position 1 of the chunk that was filled in
chunk_copy_into_buffer-take_example :
    chunk_copy_into_buffer
      (λ c n. true)
      (entry (fresh small_fs head payload small_Fits))
      2
      1
      filled_fs
    ≡ ok (8 ∷ 9 ∷ []) filled_fs
chunk_copy_into_buffer-take_example =
    chunk_copy_into_buffer-take (λ c n. true) filled_fs (fresh small_fs head payload small_Fits) 2 1
      (filled-HeapOk small_fs head payload small_Fits)
      (fresh-IsStored small_fs head payload small_Fits empty small_Holds) (λ c n h. refl)

abbrev digest : List ℕ
digest = 13 ∷ replicate 15 0

placed_Fits : Fits small_fs (new_head digest payload) payload
unfolding next_brk chunk_start from_le
placed_Fits = record {
  heap = small_HeapOk;
  hash_small = omega arith;
  some_data = omega arith;
  sized = refl;
  room = omega arith;
}

place_chunk-once_example :
    (a : ℕ) × (s' : Fs) × (a ≢ 0)
    × (place_chunk (λ p n. none) (λ n. true) (λ xs. none) bit_ops digest payload small_fs ≡ ok a s')
    × (chunk_search_hashtable (from_le (take 8 digest)) s' ≡ ok a s')
    × (place_chunk (λ p n. none) (λ n. true) (λ xs. none) bit_ops digest payload s' ≡ ok a s')
place_chunk-once_example =
    place_chunk-once (λ p n. none) (λ n. true) (λ xs. none) bit_ops small_fs digest payload empty
      placed_Fits small_Holds
