-- ===== src/Chunk/Search.antt =====
-- `chunk_search_hashtable` of src/chunk_handler.c: the walk along the chain of a bucket.
use native.Mathlib.Nat.{div-add-mod', mod-lt}
use cominix_fs.Prelude.{
  ℕ, zero, suc, ◌+◌, ◌-◌, ◌*◌, ◌/◌, ◌%◌, ◌^◌, ◌<◌, ◌≤◌, ◌≡◌, ap, ◌∙◌, inl, inr, List, [], ◌∷◌,
  arith, ==_ne, le→ltb, ◌==◌, if◌then◌else◌, Bool-cases, pow_pos,
}
use cominix_fs.Disk.{from_le}
use cominix_fs.Fs.{Fs, s_blocksize, ok, at, load_le}
use cominix_fs.Fs.Buffer.{load_le-flat}
use cominix_fs.Fs.Device.{size_split}
use cominix_fs.Chunk.{search_chain, chunk_search_hashtable, hashtable_hash}
use cominix_fs.Chunk.Alloc.{HeapOk, hashtable_pos}
use cominix_fs.Chunk.Storage.{load_blockoff-ok}
use cominix_fs.Chunk.Table.{
  Stored, Chain, Table, Holds, table_end, buckets, bytes, slot, hash_field, next_field,
}

-- the place of the first chunk with a hash, or 0
unfoldable pub find_hash : ℕ → List Stored → ℕ
find_hash h [] = 0
find_hash h (c ∷ cs) = if c.head.hash == h then c.place else find_hash h cs

module _ (s : Fs) (v : HeapOk s) where
  -- a field of a stored chunk's head, read through its block
  pub load_field :
      (a k n : ℕ)
      → a % s_blocksize s + k + n ≤ s_blocksize s
      → load_le n (at (a / s_blocksize s) (a % s_blocksize s + k)) s
        ≡ ok (from_le (bytes s (a + k) n)) s
  load_field a k n h =
      load_le-flat s (a / s_blocksize s) (a % s_blocksize s + k) n h
      ∙ ap (λ c. ok (from_le (bytes s c n)) s) (omega (arith, div-add-mod' a (s_blocksize s)))

  pub load_first :
      (a n : ℕ)
      → a % s_blocksize s + n ≤ s_blocksize s
      → load_le n (at (a / s_blocksize s) (a % s_blocksize s)) s ≡ ok (from_le (bytes s a n)) s
  load_first a n h =
      load_le-flat s (a / s_blocksize s) (a % s_blocksize s) n h
      ∙ ap (λ c. ok (from_le (bytes s c n)) s) (div-add-mod' a (s_blocksize s))

  search_chain-find :
      (fuel h i a : ℕ) (cs : List Stored)
      → Chain s i a cs
      → a < fuel
      → search_chain fuel h a s ≡ ok (find_hash h cs) s
  unfolding search_chain find_hash
  search_chain-find zero h i a cs chain enough = absurd (omega arith)
  search_chain-find (suc fuel) h i a [] e enough = rw e
  search_chain-find (suc fuel) h i a (c ∷ cs) (e, st, home, down, rest) enough = rw e (
      let pos : 0 < c.place = omega (arith, st.lo, v.slots) in
      rw
        (
          ==_ne c.place 0 (λ z. omega arith),
          load_blockoff-ok s s.sb.max_brk c.place v.device pos (omega (arith, st.hi, v.below)),
          load_first c.place 8 (omega (arith, st.in_block)),
          hash_field st,
        )
        (elim (Bool-cases (c.head.hash == h)) [
          | inl same ↦ rw same
          | inr other ↦
              rw (other, load_field c.place 16 8 (omega (arith, st.in_block)), next_field st)
                (search_chain-find fuel h i c.head.next cs rest (omega arith))
        ]))

  pub Chain-le : (i a : ℕ) (cs : List Stored) → Chain s i a cs → a ≤ s.sb.heap_brk
  Chain-le i a [] e = omega arith
  Chain-le i a (c ∷ cs) (e, st, home, down, rest) = omega (arith, st.hi)

  -- An aligned slot of 8 bytes lies in one block.
  pub slot_in_block : (a : ℕ) → a % 8 ≡ 0 → a % s_blocksize s + 8 ≤ s_blocksize s
  slot_in_block a h =
      let size = s_blocksize s in
      let m = 2 ^ (s.s_blocksize_bits - 9) in
      let split : size ≡ 512 * m = size_split v.device in
      let whole = div-add-mod' a size in
      let inside = mod-lt a (pow_pos s.s_blocksize_bits) in
      omega (arith, ap (λ n. a / size * n) split)

  pub buckets_pos : 0 < buckets s
  buckets_pos = omega (arith, v.slots)

  pub slot_range : (i : ℕ) → i < buckets s → s.sb.hashtable + i * 8 + 8 ≤ table_end s
  slot_range i h = omega arith

  pub hashtable_hash-ok : (h : ℕ) → hashtable_hash h s ≡ ok (h % buckets s) s
  unfolding hashtable_hash
  hashtable_hash-ok h = rw (==_ne (buckets s) 0 (λ e. omega (arith, buckets_pos)))

  -- In a valid heap layout whose buckets hold the chunks of a table, the search ends and returns
  -- the place of the newest chunk with the hash in the hash's bucket, and 0 if there is none.
  -- Nothing is changed.
  pub chunk_search_hashtable-find :
      (t : Table) (h : ℕ)
      → Holds s t
      → chunk_search_hashtable h s ≡ ok (find_hash h (t (h % buckets s))) s
  unfolding chunk_search_hashtable
  chunk_search_hashtable-find t h holds =
      let i = h % buckets s in
      let i_lt : i < buckets s = mod-lt h buckets_pos in
      let off = s.sb.hashtable + i * 8 in
      let fits = slot_in_block off (omega (arith, v.aligned)) in
      rw
        (
          hashtable_hash-ok h,
          load_blockoff-ok s s.sb.max_brk off v.device (omega (arith, hashtable_pos s v))
              (omega (arith, slot_range i i_lt, v.above, v.below)),
          le→ltb (s_blocksize s - off % s_blocksize s) 8 (omega arith),
          load_first off 8 fits,
        )
        (search_chain-find (suc s.sb.heap_brk) h i (slot s i) (t i) (holds i i_lt)
          (omega (arith, Chain-le i (slot s i) (t i) (holds i i_lt))))
