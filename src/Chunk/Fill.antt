-- ===== src/Chunk/Fill.antt =====
-- `chunk_fill_hashtable` of src/chunk_handler.c: the states between its writes.
use native.Mathlib.Nat.{div-add-mod', mod-lt, mod-eq_of_lt}
use mathlib.Core.Bool.{false≢true}
use cominix_fs.Prelude.{
  ==_self, ℕ, ◌+◌, ◌*◌, ◌/◌, ◌%◌, ◌^◌, ◌<◌, ◌≤◌, ◌≢◌, ◌≡◌, refl, sym, ap, subst, ◌∙◌, false, ◌⊎◌,
  inl, inr, some, List, [], ◌∷◌, arith, ltb, ltb→lt, ==_iff, ◌==◌, if◌then◌else◌, Bool-cases,
  pow_pos, length, take-all,
}
use cominix_fs.Disk.{Disk, flat_read, flat_write, byte_at, from_le, to_le}
use cominix_fs.Disk.Flat.{
  flat_read_congr, flat_read-flat_write, flat_read-flat_write_apart, byte_at-flat_write_apart,
}
use cominix_fs.Disk.Words.{length-to_le, from_le-to_le}
use cominix_fs.Fs.{Fs, s_blocksize, ok, at, with_disk, store_le}
use cominix_fs.Fs.Buffer.{store_le-flat}
use cominix_fs.Fs.Device.{Readable}
use cominix_fs.Chunk.{
  ChunkHead, head_size, head_bytes, chunk_start, copy_chunk_into_storage, chunk_fill_hashtable,
}
use cominix_fs.Chunk.Alloc.{
  HeapOk, next_brk, allocated, HeapOk-allocated, chunk_alloc-ok, chunk_start_lem, extra_below,
  hashtable_pos, block_large, InBlock,
}
use cominix_fs.Chunk.Storage.{bytes_of, load_blockoff-ok, write_data_storage-flat}
use cominix_fs.Chunk.Search.{
  slot_in_block, slot_range, buckets_pos, hashtable_hash-ok, load_first, Chain-le,
}
use cominix_fs.Chunk.Table.{
  Stored, IsStored, Chain, Chain-Grows, Grows, Table, Holds, table_end, buckets, slot,
}

length-head_bytes : (m : ChunkHead) → length (head_bytes m) ≡ 24
unfolding head_bytes to_le
length-head_bytes m = refl

bytes_of-all : (xs : List ℕ) (n : ℕ) → n ≡ length xs → bytes_of (some xs) n ≡ xs
unfolding bytes_of
bytes_of-all xs n e = take-all n xs (omega arith)

-- `copy_chunk_into_storage` writes the head and the data one behind the other.
copy_chunk-flat :
    (s : Fs) (limit a : ℕ) (m : ChunkHead) (payload : List ℕ)
    → Readable s limit
    → 0 < a
    → a + head_size + m.chunk_length ≤ limit
    → 0 < m.chunk_length
    → limit < 2 ^ 64
    → m.chunk_length ≡ length payload
    → copy_chunk_into_storage a m payload s
      ≡ ok tt (
          with_disk s (
            flat_write
              (s_blocksize s)
              (flat_write (s_blocksize s) s.disk a (head_bytes m))
              (a + head_size)
              payload))
unfolding copy_chunk_into_storage
copy_chunk-flat s limit a m payload dev lo hi some_data small sized =
    let d = flat_write (s_blocksize s) s.disk a (head_bytes m) in
    rw (
      write_data_storage-flat s limit a (some (head_bytes m)) head_size dev lo (omega arith)
          (omega arith) (omega (arith, length-head_bytes m)),
      bytes_of-all (head_bytes m) head_size (sym (length-head_bytes m)),
      mod-eq_of_lt {n = a + head_size} {m = 2 ^ 64} (omega arith),
      write_data_storage-flat (with_disk s d) limit (a + head_size) (some payload) m.chunk_length
          dev (omega arith) (omega arith) hi (omega arith),
      bytes_of-all payload m.chunk_length sized,
    )

-- What a new chunk is, and what it needs: its hash is a `u64`, its data has the length that its
-- head says and is not empty, and the heap has room for it.
pub record Fits (s : Fs) (m : ChunkHead) (payload : List ℕ) : Type 0 where
  pub heap : HeapOk s
  pub hash_small : m.hash < 2 ^ 64
  pub some_data : 0 < m.chunk_length
  pub sized : m.chunk_length ≡ length payload
  pub room : next_brk s m.chunk_length < s.sb.max_brk

-- the table with a chunk put in front of bucket `i`
unfoldable pub push : ℕ → Stored → Table → Table
push i c t j = if i == j then c ∷ t j else t j

pub push_self : (i : ℕ) (c : Stored) (t : Table) → push i c t i ≡ c ∷ t i
unfolding push
push_self i c t = rw (==_self i)

pub push_other : (i j : ℕ) (c : Stored) (t : Table) → (i == j) ≡ false → push i c t j ≡ t j
unfolding push
push_other i j c t e = rw e

module _ (s : Fs) (m : ChunkHead) (payload : List ℕ) (fits : Fits s m payload) where
  abbrev start : ℕ
  start = chunk_start s s.sb.heap_brk

  abbrev index : ℕ
  index = m.hash % buckets s

  -- the chunk as it is stored
  abbrev pub fresh : Stored
  fresh = record {
    place = chunk_start s s.sb.heap_brk;
    head = record m { next = slot s (m.hash % buckets s) };
    payload = payload;
  }

  -- the disk after each of the four writes: break, slot, head, data
  abbrev d₁ : Disk
  d₁ = (allocated s m.chunk_length).disk

  abbrev d₂ : Disk
  d₂ = flat_write (s_blocksize s) d₁ (s.sb.hashtable + index * 8) (to_le 8 start)

  abbrev d₃ : Disk
  d₃ = flat_write (s_blocksize s) d₂ start (head_bytes fresh.head)

  abbrev d₄ : Disk
  d₄ = flat_write (s_blocksize s) d₃ (start + head_size) payload

  unfoldable pub filled : Fs
  filled = with_disk (allocated s m.chunk_length) d₄

  big : 0 < s_blocksize s
  big = pow_pos s.s_blocksize_bits

  start_above : s.sb.heap_brk ≤ start
  start_above = (chunk_start_lem s fits.heap s.sb.heap_brk fits.heap.below).0

  start-InBlock : InBlock s start
  start-InBlock = (chunk_start_lem s fits.heap s.sb.heap_brk fits.heap.below).2

  room : start + head_size + m.chunk_length < s.sb.max_brk
  unfolding next_brk
  room = fits.room

  index_lt : index < buckets s
  index_lt = mod-lt m.hash (buckets_pos s fits.heap)

  slot_below : (i : ℕ) → i < buckets s → s.sb.hashtable + i * 8 + 8 ≤ table_end s
  slot_below = slot_range s fits.heap

  -- the write of the break touches nothing at or above the hash table
  d₁-byte :
      (a : ℕ) → s.sb.hashtable ≤ a → byte_at (s_blocksize s) d₁ a ≡ byte_at (s_blocksize s) s.disk a
  unfolding allocated
  d₁-byte a h =
      byte_at-flat_write_apart (s_blocksize s) big s.disk
        (s.sb.extra_sb_location * s_blocksize s + 16) (to_le 8 (next_brk s m.chunk_length)) a
        (inr (
          omega (
            arith,
            length-to_le 8 (next_brk s m.chunk_length),
            extra_below s fits.heap,
            block_large s fits.heap,
          )))

  -- below the hash table only the write of the break changes anything
  pub filled-below :
      (a n : ℕ)
      → a + n ≤ s.sb.hashtable
      → flat_read (s_blocksize s) filled.disk a n
        ≡ flat_read (s_blocksize s) (allocated s m.chunk_length).disk a n
  unfolding filled
  filled-below a n h =
      let above = fits.heap.above in
      flat_read-flat_write_apart (s_blocksize s) big d₃ (start + head_size) payload a n
        (inl (omega (arith, start_above)))
      ∙ flat_read-flat_write_apart (s_blocksize s) big d₂ start (head_bytes fresh.head) a n
          (inl (omega (arith, start_above)))
      ∙ flat_read-flat_write_apart (s_blocksize s) big d₁ (s.sb.hashtable + index * 8)
          (to_le 8 start) a n (inl (omega arith))

  -- the bytes of the table and of the heap, but for the slot and the new chunk, are as before
  d₄-byte :
      (a : ℕ)
      → s.sb.hashtable ≤ a
      → a < s.sb.heap_brk
      → (a < s.sb.hashtable + index * 8) ⊎ (s.sb.hashtable + index * 8 + 8 ≤ a)
      → byte_at (s_blocksize s) d₄ a ≡ byte_at (s_blocksize s) s.disk a
  d₄-byte a lo hi apart =
      byte_at-flat_write_apart (s_blocksize s) big d₃ (start + head_size) payload a
        (inl (omega (arith, start_above)))
      ∙ byte_at-flat_write_apart (s_blocksize s) big d₂ start (head_bytes fresh.head) a
          (inl (omega (arith, start_above)))
      ∙ byte_at-flat_write_apart (s_blocksize s) big d₁ (s.sb.hashtable + index * 8) (to_le 8 start)
          a (rw (length-to_le 8 start) apart)
      ∙ d₁-byte a lo

  pub filled-Grows : Grows s filled
  unfolding filled allocated next_brk
  filled-Grows = record {
    same_bits = refl;
    same_end = refl;
    same_buckets = refl;
    brk_up = omega (arith, start_above);
    same_bytes =
        λ a lo hi. d₄-byte a (omega arith) hi (inr (omega (arith, slot_below index index_lt)));
  }

  pub filled-HeapOk : HeapOk filled
  unfolding filled
  filled-HeapOk =
      let w = HeapOk-allocated s fits.heap m.chunk_length fits.room in
      record {
        device = w.device;
        extra = w.extra;
        zones = w.zones;
        aligned = w.aligned;
        slots = w.slots;
        above = w.above;
        below = w.below;
        addressable = w.addressable;
      }

  start_small : start < 256 ^ 8
  start_small = omega (arith, room, fits.heap.addressable)

  -- the slot of the chunk's bucket points at the chunk
  slot_new : slot filled index ≡ start
  unfolding filled allocated to_le
  slot_new =
      let off = s.sb.hashtable + index * 8 in
      let below = slot_below index index_lt in
      ap from_le (
        flat_read-flat_write_apart (s_blocksize s) big d₃ (start + head_size) payload off 8
          (inl (omega (arith, start_above, fits.heap.above)))
        ∙ flat_read-flat_write_apart (s_blocksize s) big d₂ start (head_bytes fresh.head) off 8
            (inl (omega (arith, start_above, fits.heap.above)))
        ∙ flat_read-flat_write (s_blocksize s) big d₁ off (to_le 8 start))
      ∙ from_le-to_le 8 start start_small

  apart :
      (i c : ℕ)
      → i ≢ index
      → s.sb.hashtable + i * 8 ≤ c
      → c < s.sb.hashtable + i * 8 + 8
      → (c < s.sb.hashtable + index * 8) ⊎ (s.sb.hashtable + index * 8 + 8 ≤ c)
  apart i c ne lo hi = elim (Bool-cases (ltb i index)) [
    | inl e ↦ inl (omega (arith, ltb→lt i index e))
    | inr e ↦ let above : index ≤ i = ground arith in inr (omega arith)
  ]

  -- the other slots are as before
  slot_other : (i : ℕ) → i < buckets s → i ≢ index → slot filled i ≡ slot s i
  unfolding filled allocated
  slot_other i h ne = ap from_le (
      flat_read_congr (s_blocksize s) d₄ s.disk (s.sb.hashtable + i * 8) 8 λ c lo hi.
        d₄-byte c (omega arith) (omega (arith, slot_below i h, fits.heap.above))
          (apart i c ne lo hi))

  payload_bytes : flat_read (s_blocksize s) d₄ (start + head_size) m.chunk_length ≡ payload
  payload_bytes =
      ap (λ n. flat_read (s_blocksize s) d₄ (start + head_size) n) fits.sized
      ∙ flat_read-flat_write (s_blocksize s) big d₃ (start + head_size) payload

  head_bytes_at : flat_read (s_blocksize s) d₄ start head_size ≡ head_bytes fresh.head
  head_bytes_at =
      flat_read-flat_write_apart (s_blocksize s) big d₃ (start + head_size) payload start head_size
        (inl (omega arith))
      ∙ ap (λ n. flat_read (s_blocksize s) d₃ start n) (sym (length-head_bytes fresh.head))
      ∙ flat_read-flat_write (s_blocksize s) big d₂ start (head_bytes fresh.head)

  -- the state after the slot, then after the head
  abbrev s₁ : Fs
  s₁ = allocated s m.chunk_length

  slot_same : slot s₁ index ≡ slot s index
  unfolding allocated
  slot_same = ap from_le (
      flat_read_congr (s_blocksize s) d₁ s.disk (s.sb.hashtable + index * 8) 8
        (λ c lo hi. d₁-byte c (omega arith)))

  store_slot :
      store_le 8
        (at
          ((s.sb.hashtable + index * 8) / s_blocksize s)
          ((s.sb.hashtable + index * 8) % s_blocksize s))
        start
        s₁
      ≡ ok tt (with_disk s₁ d₂)
  unfolding allocated
  store_slot =
      let off = s.sb.hashtable + index * 8 in
      store_le-flat s₁ (off / s_blocksize s) (off % s_blocksize s) 8 start
        (slot_in_block s fits.heap off (omega (arith, fits.heap.aligned)))
      ∙ ap (λ a. ok tt (with_disk s₁ (flat_write (s_blocksize s) d₁ a (to_le 8 start))))
          (div-add-mod' off (s_blocksize s))

  -- the run: the chunk's place is returned, and the four writes are made
  pub chunk_fill_hashtable-ok : chunk_fill_hashtable m payload s ≡ ok start filled
  unfolding chunk_fill_hashtable filled allocated
  chunk_fill_hashtable-ok =
      let off = s.sb.hashtable + index * 8 in
      let heap = HeapOk-allocated s fits.heap m.chunk_length fits.room in
      rw (
        chunk_alloc-ok s fits.heap m.chunk_length fits.some_data fits.room,
        hashtable_hash-ok s₁ heap m.hash,
        load_blockoff-ok s₁ s.sb.max_brk off heap.device (omega (arith, hashtable_pos s fits.heap))
            (omega (arith, slot_below index index_lt, fits.heap.above, fits.heap.below)),
        load_first s₁ heap off 8 (slot_in_block s fits.heap off (omega (arith, fits.heap.aligned))),
        slot_same,
        store_slot,
        copy_chunk-flat (with_disk s₁ d₂) s.sb.max_brk start fresh.head payload heap.device
            (omega (arith, start_above, fits.heap.above, hashtable_pos s fits.heap))
            (omega (arith, room)) fits.some_data (omega (arith, fits.heap.addressable)) fits.sized,
      )

  module _ (t : Table) (holds : Holds s t) where
    old-Chain : Chain s index (slot s index) (t index)
    old-Chain = holds index index_lt

    next_le : slot s index ≤ s.sb.heap_brk
    next_le = Chain-le s fits.heap index (slot s index) (t index) old-Chain

    pub fresh-IsStored : IsStored filled fresh
    unfolding filled allocated next_brk
    fresh-IsStored = record {
      lo = omega (arith, start_above, fits.heap.above);
      hi = omega arith;
      in_block = start-InBlock;
      hash_small = fits.hash_small;
      next_small = omega (arith, next_le, fits.heap.addressable, fits.heap.below);
      sized = fits.sized;
      head_at = head_bytes_at;
      payload_at = payload_bytes;
    }

    -- a chain link goes down strictly, since every chunk takes more than its first byte
    Chain-lt : (a : ℕ) (cs : List Stored) → Chain s index a cs → a < start
    Chain-lt a [] e = omega (arith, start_above, fits.heap.above, hashtable_pos s fits.heap)
    Chain-lt a (c ∷ cs) (e, st, home, down, rest) = omega (arith, st.hi, start_above)

    Holds_index : Chain filled index (slot filled index) (fresh ∷ t index)
    Holds_index = (
      slot_new,
      fresh-IsStored,
      ap (λ n. m.hash % n) filled-Grows.same_buckets,
      Chain-lt (slot s index) (t index) old-Chain,
      Chain-Grows filled-Grows index (slot s index) (t index) old-Chain,
    )

    Holds_other : (i : ℕ) → i < buckets s → i ≢ index → Chain filled i (slot filled i) (t i)
    Holds_other i h ne =
        subst (λ a. Chain filled i a (t i)) (sym (slot_other i h ne))
          (Chain-Grows filled-Grows i (slot s i) (t i) (holds i h))

    pub filled-Holds : Holds filled (push index fresh t)
    filled-Holds i h = elim (Bool-cases (index == i)) [
      | inl e ↦
          let same : index ≡ i = (==_iff index i).0 e in
          subst (λ j. Chain filled j (slot filled j) (push index fresh t j)) same
            (subst (Chain filled index (slot filled index)) (sym (push_self index fresh t))
              Holds_index)
      | inr e ↦ subst (Chain filled i (slot filled i)) (sym (push_other index i fresh t e)) (
          Holds_other i (omega (arith, filled-Grows.same_buckets))
            (λ z. absurd (false≢true (sym e ∙ (==_iff index i).1 (sym z)))))
    ]
