-- ===== src/File/Place.antt =====
-- `place_chunk`, the step of `chunk_and_replace` of src/file.c that stores each chunk once.
use cominix_fs.Prelude.{
  ℕ, ◌≡◌, ◌≢◌, sym, ap, ◌∙◌, Bool, Option, inl, inr, List, arith, ==_ne, ◌==◌, Bool-cases, length,
  take, ◌%◌,
}
use cominix_fs.BitOps.{BitOps}
use cominix_fs.Chunk.{ChunkHead, chunk_start, chunk_search_hashtable}
use cominix_fs.Chunk.Alloc.{hashtable_pos, chunk_start_lem}
use cominix_fs.Chunk.Contract.{search-fill}
use cominix_fs.Chunk.Fill.{Fits, filled, chunk_fill_hashtable-ok}
use cominix_fs.Chunk.Search.{find_hash, chunk_search_hashtable-find}
use cominix_fs.Chunk.Table.{Table, Holds, buckets}
use cominix_fs.Disk.{from_le}
use cominix_fs.File.{place_chunk}
use cominix_fs.Fs.{Fs, ok, and_then}

-- the head of a new chunk
abbrev pub new_head : List ℕ → List ℕ → ChunkHead
new_head digest buf = record {
  hash = from_le (take 8 digest);
  chunk_length = length buf;
  refcount = 0;
  flags = 0;
  next = 0;
}

module _ (kernel_read : ℕ → ℕ → Option (List ℕ)) (kmalloc : ℕ → Bool)
    (md5_hash : List ℕ → Option (List ℕ)) (ops : BitOps) (s : Fs) (digest buf : List ℕ) (t : Table)
    (fits : Fits s (new_head digest buf) buf) (holds : Holds s t) where
  abbrev h : ℕ
  h = from_le (take 8 digest)

  abbrev start : ℕ
  start = chunk_start s s.sb.heap_brk

  abbrev after : Fs
  after = filled s (new_head digest buf) buf fits

  start-pos : start ≢ 0
  start-pos z =
      let up = (chunk_start_lem s fits.heap s.sb.heap_brk fits.heap.below).0 in
      omega (arith, hashtable_pos s fits.heap, fits.heap.above)

  search_after : chunk_search_hashtable h after ≡ ok start after
  search_after =
      sym (
        ap (λ r. and_then r (λ _. chunk_search_hashtable h))
          (chunk_fill_hashtable-ok s (new_head digest buf) buf fits))
      ∙ search-fill s (new_head digest buf) buf t fits holds

  -- In a valid heap layout whose buckets hold the chunks of a table, and for a chunk that would
  -- fit, placing the chunk ends without a fault at a place other than 0. A search for its hash then
  -- returns that place, and placing the chunk again returns that place too and stores nothing.
  pub place_chunk-once :
      (a : ℕ) × (s' : Fs) × (a ≢ 0)
      × (place_chunk kernel_read kmalloc md5_hash ops digest buf s ≡ ok a s')
      × (chunk_search_hashtable (from_le (take 8 digest)) s' ≡ ok a s')
      × (place_chunk kernel_read kmalloc md5_hash ops digest buf s' ≡ ok a s')
  unfolding place_chunk
  place_chunk-once =
      let a = find_hash h (t (h % buckets s)) in
      let search = chunk_search_hashtable-find s fits.heap t h holds in
      elim (Bool-cases (a == 0)) [
        | inl e ↦ (
          start,
          after,
          start-pos,
          rw (search, e) (chunk_fill_hashtable-ok s (new_head digest buf) buf fits),
          search_after,
          rw (search_after, ==_ne start 0 start-pos),
        )
        | inr e ↦
            let some_place : a ≢ 0 = λ z. ground arith in
            (a, s, some_place, rw (search, e), search, rw (search, e))
      ]
