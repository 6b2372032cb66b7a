-- ===== src/Chunk/Table.antt =====
-- What the hash table and the heap hold: for each bucket the chain of its chunks, newest first.
use cominix_fs.Prelude.{
  ℕ, ◌+◌, ◌*◌, ◌/◌, ◌%◌, ◌^◌, ◌<◌, ◌≤◌, ◌≡◌, refl, sym, ap, subst, ◌∙◌, List, [], ◌∷◌, arith,
  length, take, drop,
}
use cominix_fs.Disk.{flat_read, to_le, from_le, byte_at}
use cominix_fs.Disk.Flat.{flat_read_part, flat_read_congr}
use cominix_fs.Disk.Words.{from_le-to_le}
use cominix_fs.Fs.{Fs, s_blocksize}
use cominix_fs.Chunk.{ChunkHead, head_size, head_bytes}
use cominix_fs.Chunk.Alloc.{InBlock}

-- a chunk with its place
pub record Stored : Type 0 where
  pub place : ℕ
  pub head : ChunkHead
  pub payload : List ℕ

abbrev pub table_end : Fs → ℕ
table_end s = s.sb.hashtable + s.sb.hashtable_size

abbrev pub buckets : Fs → ℕ
buckets s = s.sb.hashtable_size / 8

abbrev pub bytes : Fs → ℕ → ℕ → List ℕ
bytes s a n = flat_read (s_blocksize s) s.disk a n

abbrev pub footprint : Stored → ℕ
footprint c = head_size + c.head.chunk_length

-- The chunk lies between the hash table and the break, its head in one block.
pub record IsStored (s : Fs) (c : Stored) : Type 0 where
  pub lo : table_end s ≤ c.place
  pub hi : c.place + footprint c ≤ s.sb.heap_brk
  pub in_block : InBlock s c.place
  pub hash_small : c.head.hash < 2 ^ 64
  pub next_small : c.head.next < 2 ^ 64
  pub sized : c.head.chunk_length ≡ length c.payload
  pub head_at : bytes s c.place head_size ≡ head_bytes c.head
  pub payload_at : bytes s (c.place + head_size) c.head.chunk_length ≡ c.payload

-- From `a` the `next` links lead down through the chunks of bucket `i` to 0.
abbrev pub Chain : Fs → ℕ → ℕ → List Stored → Type 0
Chain s i a [] = a ≡ 0
Chain s i a (c ∷ cs) =
    (a ≡ c.place)
    × IsStored s c
    × (c.head.hash % buckets s ≡ i)
    × (c.head.next < c.place)
    × Chain s i c.head.next cs

abbrev pub Table : Type 0
Table = ℕ → List Stored

abbrev pub slot : Fs → ℕ → ℕ
slot s i = from_le (bytes s (s.sb.hashtable + i * 8) 8)

-- The buckets of the device are those of `t`.
abbrev pub Holds : Fs → Table → Type 0
Holds s t = (i : ℕ) → i < buckets s → Chain s i (slot s i) (t i)

module _ {s : Fs} {c : Stored} (v : IsStored s c) where
  pub hash_field : from_le (bytes s c.place 8) ≡ c.head.hash
  unfolding head_bytes to_le
  hash_field =
      let z : c.place ≡ c.place + 0 = omega arith in
      ap (λ a. from_le (bytes s a 8)) z
      ∙ ap from_le (
          flat_read_part (s_blocksize s) s.disk c.place head_size 0 8 (omega arith)
          ∙ ap (λ xs. take 8 (drop 0 xs)) v.head_at)
      ∙ from_le-to_le 8 c.head.hash v.hash_small

  pub next_field : from_le (bytes s (c.place + 16) 8) ≡ c.head.next
  unfolding head_bytes to_le
  next_field =
      ap from_le (
        flat_read_part (s_blocksize s) s.disk c.place head_size 16 8 (omega arith)
        ∙ ap (λ xs. take 8 (drop 16 xs)) v.head_at)
      ∙ from_le-to_le 8 c.head.next v.next_small

-- `t` is the state after a step that only added to the heap: the layout is the same, the break did
-- not go down, and every byte between the hash table and the old break is as it was.
pub record Grows (s t : Fs) : Type 0 where
  pub same_bits : t.s_blocksize_bits ≡ s.s_blocksize_bits
  pub same_end : table_end t ≡ table_end s
  pub same_buckets : buckets t ≡ buckets s
  pub brk_up : s.sb.heap_brk ≤ t.sb.heap_brk
  pub same_bytes :
      (a : ℕ)
      → table_end s ≤ a
      → a < s.sb.heap_brk
      → byte_at (s_blocksize s) t.disk a ≡ byte_at (s_blocksize s) s.disk a

module _ {s t : Fs} (g : Grows s t) where
  bytes_same : (a n : ℕ) → table_end s ≤ a → a + n ≤ s.sb.heap_brk → bytes t a n ≡ bytes s a n
  bytes_same a n lo hi =
      ap (λ k. flat_read (2 ^ k) t.disk a n) g.same_bits
      ∙ flat_read_congr (s_blocksize s) t.disk s.disk a n
          (λ c above below. g.same_bytes c (omega arith) (omega arith))

  -- a chunk survives such a step
  pub IsStored-Grows : {c : Stored} → IsStored s c → IsStored t c
  IsStored-Grows {c} v = record {
    lo = omega (arith, g.same_end, v.lo);
    hi = omega (arith, g.brk_up, v.hi);
    in_block = subst (λ k. c.place % 2 ^ k + head_size ≤ 2 ^ k) (sym g.same_bits) v.in_block;
    hash_small = v.hash_small;
    next_small = v.next_small;
    sized = v.sized;
    head_at = bytes_same c.place head_size v.lo (omega (arith, v.hi)) ∙ v.head_at;
    payload_at =
        bytes_same (c.place + head_size) c.head.chunk_length (omega (arith, v.lo))
          (omega (arith, v.hi))
        ∙ v.payload_at;
  }

  pub Chain-Grows : (i a : ℕ) (cs : List Stored) → Chain s i a cs → Chain t i a cs
  Chain-Grows i a [] h = h
  Chain-Grows i a (c ∷ cs) (e, v, home, down, rest) = (
    e,
    IsStored-Grows v,
    ap (λ n. c.head.hash % n) g.same_buckets ∙ home,
    down,
    Chain-Grows i c.head.next cs rest,
  )

-- one step behind the other
pub Grows-trans : {s t u : Fs} → Grows s t → Grows t u → Grows s u
Grows-trans {s} {t} {u} g h = record {
  same_bits = h.same_bits ∙ g.same_bits;
  same_end = h.same_end ∙ g.same_end;
  same_buckets = h.same_buckets ∙ g.same_buckets;
  brk_up = omega (arith, g.brk_up, h.brk_up);
  same_bytes = λ a lo hi.
      subst (λ k. byte_at (2 ^ k) u.disk a ≡ byte_at (2 ^ k) t.disk a) g.same_bits
        (h.same_bytes a (omega (arith, g.same_end)) (omega (arith, g.brk_up)))
      ∙ g.same_bytes a lo hi;
}

pub Grows-refl : (s : Fs) → Grows s s
Grows-refl s = record {
  same_bits = refl;
  same_end = refl;
  same_buckets = refl;
  brk_up = omega arith;
  same_bytes = λ a lo hi. refl;
}
