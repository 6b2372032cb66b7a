-- ===== src/Chunk/Contract.antt =====
-- The chunk store of src/chunk_handler.c as its callers see it.
use native.Mathlib.Nat.{mod-eq_of_lt}
use cominix_fs.Prelude.{
  ℕ, ◌+◌, ◌-◌, ◌%◌, ◌^◌, ◌<◌, ◌≢◌, ◌≡◌, ap, ◌∙◌, Bool, min, inl, inr, List, arith, ==_ne, ==_self,
  ◌==◌, Bool-cases, take, drop,
}
use cominix_fs.Disk.Flat.{flat_read_part}
use cominix_fs.Fs.{Fs, s_blocksize, ok, ◌>>=◌}
use cominix_fs.Chunk.{
  ChunkHead, ChunkEntry, head_size, chunk_start, chunk_fill_hashtable, chunk_search_hashtable,
  chunk_copy_into_buffer,
}
use cominix_fs.Chunk.Alloc.{HeapOk, hashtable_pos}
use cominix_fs.Chunk.Storage.{Writable, read_data_storage-flat}
use cominix_fs.Chunk.Search.{find_hash, chunk_search_hashtable-find}
use cominix_fs.Chunk.Fill.{
  Fits, push, push_self, fresh, filled, filled-Holds, filled-HeapOk, filled-Grows,
  chunk_fill_hashtable-ok,
}
use cominix_fs.Chunk.Table.{Stored, IsStored, Grows, Table, Holds, buckets}

abbrev pub entry : Stored → ChunkEntry
entry c = record { location = c.place; size = c.head.chunk_length }

-- In a valid heap layout, and when the user's buffer can take `count` bytes, a copy of `count`
-- bytes from position `pos` of a stored chunk gives the chunk's bytes from there on, cut at the
-- chunk's end, and changes nothing.
pub chunk_copy_into_buffer-take :
    (copy_to_user : ℕ → ℕ → Bool) (s : Fs) (c : Stored) (count pos : ℕ)
    → HeapOk s
    → IsStored s c
    → Writable copy_to_user count
    → chunk_copy_into_buffer copy_to_user (entry c) count pos s
      ≡ ok (take (min count (c.head.chunk_length - pos)) (drop pos c.payload)) s
unfolding chunk_copy_into_buffer
chunk_copy_into_buffer-take copy_to_user s c count pos v st user =
    let n = min count (c.head.chunk_length - pos) in
    elim (Bool-cases (n == 0)) [
      | inl e ↦ let z : n ≡ 0 = ground arith in rw z
      | inr e ↦
          let some_bytes : 0 < n = ground arith in
          let a = c.place + head_size + pos in
          rw
            (
              e,
              mod-eq_of_lt {n = a} {m = 2 ^ 64} (omega (arith, st.hi, v.below, v.addressable)),
              read_data_storage-flat copy_to_user s s.sb.max_brk a n v.device
                  (λ k w h. user k w (omega arith)) (omega (arith, st.lo, hashtable_pos s v))
                  (omega (arith, st.hi, v.below)) (omega (arith, st.hi, v.below)),
            )
            (ap (λ xs. ok xs s)
              (flat_read_part (s_blocksize s) s.disk (c.place + head_size) c.head.chunk_length pos n
                  (omega arith)
                ∙ ap (λ xs. take n (drop pos xs)) st.payload_at))
    ]

find-push_other :
    (h i j : ℕ) (c : Stored) (t : Table)
    → c.head.hash ≢ h
    → find_hash h (push i c t j) ≡ find_hash h (t j)
unfolding find_hash push
find-push_other h i j c t ne = elim (Bool-cases (i == j)) [
  | inl e ↦ rw (e, ==_ne c.head.hash h ne)
  | inr e ↦ rw e
]

module _ (s : Fs) (m : ChunkHead) (payload : List ℕ) (t : Table) (fits : Fits s m payload)
    (holds : Holds s t) where
  -- In a valid heap layout whose buckets hold the chunks of a table, filling in a chunk that fits
  -- succeeds with the start of the next chunk. Afterwards the layout is valid, the break has not
  -- shrunk, the bytes from the end of the hash table to the old break are as before, and the
  -- buckets hold the same chunks with the new one first in its bucket.
  pub chunk_fill_hashtable-push :
      (s' : Fs) × (chunk_fill_hashtable m payload s ≡ ok (chunk_start s s.sb.heap_brk) s')
      × HeapOk s'
      × Grows s s'
      × Holds s' (push (m.hash % buckets s) (fresh s m payload fits) t)
  chunk_fill_hashtable-push = (
    filled s m payload fits,
    chunk_fill_hashtable-ok s m payload fits,
    filled-HeapOk s m payload fits,
    filled-Grows s m payload fits,
    filled-Holds s m payload fits t holds,
  )

  -- In a valid heap layout whose buckets hold the chunks of a table, filling in a chunk that fits
  -- and then searching for its hash returns its place.
  pub search-fill :
      (chunk_fill_hashtable m payload >>= λ _. chunk_search_hashtable m.hash) s
      ≡ ok (chunk_start s s.sb.heap_brk) (filled s m payload fits)
  unfolding find_hash
  search-fill =
      let s' = filled s m payload fits in
      rw (
        chunk_fill_hashtable-ok s m payload fits,
        chunk_search_hashtable-find s' (filled-HeapOk s m payload fits)
            (push (m.hash % buckets s) (fresh s m payload fits) t) m.hash
            (filled-Holds s m payload fits t holds),
        (filled-Grows s m payload fits).same_buckets,
        push_self,
        ==_self m.hash,
      )

  -- In a valid heap layout whose buckets hold the chunks of a table, after a chunk that fits is
  -- filled in, a search for any other hash returns the place that the old table gives for it.
  pub search_other-fill :
      (h : ℕ)
      → m.hash ≢ h
      → (chunk_fill_hashtable m payload >>= λ _. chunk_search_hashtable h) s
        ≡ ok (find_hash h (t (h % buckets s))) (filled s m payload fits)
  unfolding find_hash
  search_other-fill h ne =
      let s' = filled s m payload fits in
      rw
        (
          chunk_fill_hashtable-ok s m payload fits,
          chunk_search_hashtable-find s' (filled-HeapOk s m payload fits)
              (push (m.hash % buckets s) (fresh s m payload fits) t) h
              (filled-Holds s m payload fits t holds),
          (filled-Grows s m payload fits).same_buckets,
        )
        (ap (λ a. ok a s')
          (find-push_other h (m.hash % buckets s) (h % buckets s) (fresh s m payload fits) t ne))
