-- ===== src/File/Store.antt =====
-- The chunk store while `chunk_and_replace` of src/file.c runs: each chunk's hash is that of its
-- bytes, and no two of the byte strings that occur share one.
use native.Mathlib.Nat.{mod-lt}
use cominix_fs.Prelude.{
  ℕ, ◌+◌, ◌%◌, ◌^◌, ◌<◌, ◌≤◌, ◌≡◌, ◌⊎◌, refl, sym, ◌∙◌, Bool, Option, inl, inr, List, [], ◌∷◌,
  arith, length, take, ==_iff, ==_ne, ◌==◌, Bool-cases,
}
use cominix_fs.BitOps.{BitOps}
use cominix_fs.Chunk.{ChunkEntry, chunk_search_hashtable}
use cominix_fs.Chunk.Alloc.{HeapOk, next_brk, allocated, chunk_start_lem, hashtable_pos}
use cominix_fs.Chunk.Fill.{
  Fits, push, fresh, filled, filled-HeapOk, filled-Grows, filled-Holds, fresh-IsStored,
  chunk_fill_hashtable-ok,
}
use cominix_fs.Chunk.Search.{find_hash, chunk_search_hashtable-find, buckets_pos}
use cominix_fs.Chunk.Table.{Stored, IsStored, Chain, Grows, Grows-refl, Table, Holds, buckets, slot}
use cominix_fs.Disk.{Disk, from_le}
use cominix_fs.File.{place_chunk}
use cominix_fs.File.Place.{new_head}
use cominix_fs.Fs.{Fs, ok}
use cominix_fs.LinkedList.Frame.{SameBlock}
use cominix_fs.LinkedList.Grow.{Ready}
use cominix_fs.LinkedList.Heap.{fill_brk, fill_disk, filled-SameBlock, filled-Ready}
use cominix_fs.LinkedList.Segment.{moved, Owned}

-- the first 8 bytes of a digest as a number
abbrev pub hash_of : (List ℕ → List ℕ) → List ℕ → ℕ
hash_of md5 xs = from_le (take 8 (md5 xs))

-- The chunks have the hashes of their bytes, which are among those that occur.
abbrev pub AllHashed : (List ℕ → List ℕ) → (List ℕ → Type 0) → List Stored → Type 0
AllHashed md5 Occurs [] = Unit
AllHashed md5 Occurs (c ∷ cs) =
    (c.head.hash ≡ hash_of md5 c.payload) × Occurs c.payload × AllHashed md5 Occurs cs

-- A valid heap whose buckets hold the chunks of a table with their hashes.
pub record Store (md5 : List ℕ → List ℕ) (Occurs : List ℕ → Type 0) (s : Fs) (t : Table)
    : Type 0 where
  pub heap : HeapOk s
  pub holds : Holds s t
  pub hashed : (i : ℕ) → i < buckets s → AllHashed md5 Occurs (t i)

-- a hash is found at a chunk that has it, or not at all
abbrev Hit : (List ℕ → List ℕ) → (List ℕ → Type 0) → Fs → ℕ → ℕ → Type 0
Hit md5 Occurs s h a =
    (a ≡ 0)
    ⊎ ((c : Stored) × (a ≡ c.place) × IsStored s c × (hash_of md5 c.payload ≡ h) × Occurs c.payload)

find_hash-Hit :
    (md5 : List ℕ → List ℕ) (Occurs : List ℕ → Type 0) (s : Fs) (i h a : ℕ) (cs : List Stored)
    → Chain s i a cs
    → AllHashed md5 Occurs cs
    → Hit md5 Occurs s h (find_hash h cs)
unfolding find_hash
find_hash-Hit md5 Occurs s i h a [] chain all = inl refl
find_hash-Hit md5 Occurs s i h a (c ∷ cs) (e, st, home, down, rest) (has, occurs, all) =
    elim (Bool-cases (c.head.hash == h)) [
      | inl same ↦
          let is : c.head.hash ≡ h = (==_iff c.head.hash h).0 same in
          rw same (inr (c, refl, st, sym has ∙ is, occurs))
      | inr other ↦ rw other (find_hash-Hit md5 Occurs s i h c.head.next cs rest all)
    ]

module _ (kernel_read : ℕ → ℕ → Option (List ℕ)) (kmalloc : ℕ → Bool)
    (md5_hash : List ℕ → Option (List ℕ)) (ops : BitOps) (md5 : List ℕ → List ℕ)
    (Occurs : List ℕ → Type 0)
    (apart : (xs ys : List ℕ) → Occurs xs → Occurs ys → hash_of md5 xs ≡ hash_of md5 ys → xs ≡ ys)
    (hash_small : (xs : List ℕ) → hash_of md5 xs < 2 ^ 64) (s : Fs) (t : Table)
    (store : Store md5 Occurs s t) (buf : List ℕ) (occurs : Occurs buf) (some_data : 0 < length buf)
    (room : s.sb.heap_brk + 47 + length buf < s.sb.max_brk) (head end : ℕ)
    (full : List (List ChunkEntry)) (last : List ChunkEntry) (zs : List ℕ) (needed : ℕ)
    (ready : Ready s head end full last zs needed) where
  -- What placing a chunk leaves: it is stored with its bytes, and the rest is as good as before.
  abbrev pub Placed : Type 0
  Placed =
      (c : Stored) × (brk : ℕ) × (d : Disk) × (t' : Table) × (place_chunk kernel_read kmalloc
          md5_hash ops (md5 buf) buf s
        ≡ ok c.place (moved s brk d s.s_zmap))
      × IsStored (moved s brk d s.s_zmap) c
      × (c.payload ≡ buf)
      × Store md5 Occurs (moved s brk d s.s_zmap) t'
      × Grows s (moved s brk d s.s_zmap)
      × Ready (moved s brk d s.s_zmap) head end full last zs needed
      × (brk ≤ s.sb.heap_brk + 47 + length buf)
      × ((b : ℕ) → Owned s b → SameBlock s d b)

  abbrev h : ℕ
  h = hash_of md5 buf

  abbrev index : ℕ
  index = h % buckets s

  next_brk-le : next_brk s (length buf) ≤ s.sb.heap_brk + 47 + length buf
  unfolding next_brk
  next_brk-le = omega (arith, (chunk_start_lem s store.heap s.sb.heap_brk store.heap.below).1)

  fits : Fits s (new_head (md5 buf) buf) buf
  fits = record {
    heap = store.heap;
    hash_small = hash_small buf;
    some_data = some_data;
    sized = refl;
    room = omega (arith, next_brk-le);
  }

  index_lt : index < buckets s
  index_lt = mod-lt h (buckets_pos s store.heap)

  search : chunk_search_hashtable h s ≡ ok (find_hash h (t index)) s
  search = chunk_search_hashtable-find s store.heap t h store.holds

  place_found :
      (c : Stored)
      → find_hash h (t index) ≡ c.place
      → IsStored s c
      → hash_of md5 c.payload ≡ h
      → Occurs c.payload
      → Placed
  unfolding place_chunk
  place_found c at st same_hash old = (
    c,
    s.sb.heap_brk,
    s.disk,
    t,
    rw (search, at, ==_ne c.place 0 (λ z. omega (arith, st.lo, hashtable_pos s store.heap))),
    st,
    apart c.payload buf old occurs same_hash,
    store,
    Grows-refl s,
    ready,
    omega arith,
    λ b owned o h. refl,
  )

  abbrev new : Stored
  new = fresh s (new_head (md5 buf) buf) buf fits

  push-hashed : (i : ℕ) → i < buckets s → AllHashed md5 Occurs (push index new t i)
  unfolding push
  push-hashed i lt = elim (Bool-cases (index == i)) [
    | inl e ↦ rw e (refl, occurs, store.hashed i lt)
    | inr e ↦ rw e (store.hashed i lt)
  ]

  place_new : find_hash h (t index) ≡ 0 → Placed
  unfolding place_chunk filled allocated
  place_new none =
      let m = new_head (md5 buf) buf in
      (
        new,
        fill_brk s m buf fits,
        fill_disk s m buf fits,
        push index new t,
        rw (search, none) (chunk_fill_hashtable-ok s m buf fits),
        fresh-IsStored s m buf fits t store.holds,
        refl,
        record {
          heap = filled-HeapOk s m buf fits;
          holds = filled-Holds s m buf fits t store.holds;
          hashed = push-hashed;
        },
        filled-Grows s m buf fits,
        filled-Ready s m buf fits head end full last zs needed ready,
        next_brk-le,
        λ b owned. filled-SameBlock s m buf fits b owned.1 owned.3,
      )

  pub place_chunk-Placed : Placed
  place_chunk-Placed =
      elim (find_hash-Hit md5 Occurs s index h (slot s index) (t index) (store.holds index index_lt)
        (store.hashed index index_lt)) [
          | inl none ↦ place_new none
          | inr (c, at, st, same_hash, old) ↦ place_found c at st same_hash old
        ]
