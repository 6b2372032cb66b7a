-- ===== src/Chunk.antt =====
-- src/chunk_handler.c: the heap of chunks behind the hash table, and the table itself.
pub mod Storage
pub mod Alloc
pub mod Table
pub mod Search
pub mod Fill
pub mod Reset
pub mod Contract
use Prim.Native.Nat.{min}
use cominix_fs.Prelude.{
  ℕ, zero, suc, ◌+◌, ◌-◌, ◌*◌, ◌/◌, ◌%◌, ◌^◌, ◌≡◌, Bool, true, false, not, ◌||◌, Option, none, some,
  List, [], ◌∷◌, ◌++◌, ltb, leb, ◌==◌, if◌then◌else◌, length, take, drop, replicate,
}
use cominix_fs.Disk.{to_le}
use cominix_fs.Fs.{
  Fs, SbInfo, s_blocksize, M, ok, bug, oops, hang, pure, ◌>>=◌, ◌>>◌, get, modify, bug_on,
  defined_if, Ptr, at, shift, load_bytes, store_bytes, load_le, store_le, sb_bread, b_data,
  load_block,
}

-- `struct chunk_head`
pub record ChunkHead : Type 0 where
  pub hash : ℕ
  pub chunk_length : ℕ
  pub refcount : ℕ
  pub flags : ℕ
  pub next : ℕ

-- `sizeof(struct chunk_head)`, and the head's image in memory
abbrev pub head_size : ℕ
head_size = 24

unfoldable pub head_bytes : ChunkHead → List ℕ
head_bytes h =
    to_le 8 h.hash
    ++ (to_le 4 h.chunk_length ++ (to_le 2 h.refcount ++ (to_le 2 h.flags ++ to_le 8 h.next)))

-- `struct chunk_entry`
pub record ChunkEntry : Type 0 where
  pub location : ℕ
  pub size : ℕ

-- a `block_t`: 32 bits
unfoldable pub block_no : Fs → ℕ → ℕ
block_no s off = (off / s_blocksize s) % 2 ^ 32

unfoldable pub inblock_offset : ℕ → M ℕ
inblock_offset off = do s ← get; bug_on (ltb 30 s.s_blocksize_bits); pure (off % s_blocksize s)

unfoldable pub update_brk_on_disk : ℕ → M (Unit {0})
unfolding b_data
update_brk_on_disk new_brk = do
  s ← get
  bh ← load_block s.sb.extra_sb_location
  esb ← b_data bh
  store_le 8 (shift esb 16) new_brk

abbrev pub set_heap_brk : ℕ → Fs → Fs
set_heap_brk b s = record s { sb = record (s.sb) { heap_brk = b } }

-- Where the next chunk goes: a head that would straddle a boundary moves to the next block. The
-- next block's start is computed in the 32 bits of a `block_t`.
unfoldable pub chunk_start : Fs → ℕ → ℕ
unfolding block_no
chunk_start s brk =
    if block_no s brk == block_no s ((brk + head_size - 1) % 2 ^ 64)
    then brk
    else (block_no s brk + 1) * s_blocksize s % 2 ^ 32

unfoldable pub chunk_alloc : ℕ → M ℕ
unfolding update_brk_on_disk
chunk_alloc size = do
  bug_on (size == 0)
  s ← get
  bug_on (leb s.sb.heap_brk (s.sb.s_nzones * s_blocksize s % 2 ^ 64))
  let new = chunk_start s s.sb.heap_brk
  let brk = (new + head_size + size) % 2 ^ 64
  modify (set_heap_brk brk)
  bug_on (leb s.sb.max_brk brk)
  update_brk_on_disk brk
  pure new

-- what `load_blockoff` returns: the pointer, and `bytes_left`
pub record Loaded : Type 0 where
  pub ptr : Ptr
  pub bytes_left : ℕ

unfoldable pub load_blockoff : ℕ → M Loaded
unfolding block_no inblock_offset
load_blockoff off = do
  bug_on (off == 0)
  s ← get
  bh ← sb_bread (block_no s off)
  elim bh [
    | none ↦ λ _. bug
    | some b ↦ do
      o ← inblock_offset off
      pure (record { ptr = at b o; bytes_left = s_blocksize s - o })
  ]

unfoldable pub hashtable_hash : ℕ → M ℕ
hashtable_hash chunk_hash = do
  s ← get
  defined_if (not (s.sb.hashtable_size / 8 == 0))
  pure (chunk_hash % (s.sb.hashtable_size / 8))

unfoldable pub search_chain : ℕ → ℕ → ℕ → M ℕ
search_chain zero chunk_hash chunk_location = λ _. hang
search_chain (suc fuel) chunk_hash chunk_location = if chunk_location == 0 then pure 0 else do
  chunk ← load_blockoff chunk_location
  hash ← load_le 8 chunk.ptr
  if hash == chunk_hash
      then pure chunk_location
      else do next ← load_le 8 (shift chunk.ptr 16); search_chain fuel chunk_hash next

-- The walk is given `heap_brk` rounds and one.
unfoldable pub chunk_search_hashtable : ℕ → M ℕ
chunk_search_hashtable chunk_hash = do
  s ← get
  index ← hashtable_hash chunk_hash
  slot ← load_blockoff (s.sb.hashtable + index * 8)
  bug_on (ltb slot.bytes_left 8)
  chunk_location ← load_le 8 slot.ptr
  search_chain (suc s.sb.heap_brk) chunk_hash chunk_location

-- `bh` is the number of the current block; BUG if the next cannot be read
unfoldable pub get_next_block : ℕ → M ℕ
get_next_block bh = do
  s ← get
  next ← sb_bread ((bh + 1) % 2 ^ 32)
  elim next [ none ↦ λ _. bug | some b ↦ pure b ]

-- The cursor into the caller's data: `none` is NULL, which stands for zeroes.
abbrev pub Source : Type 0
Source = Option (List ℕ)

unfoldable pub copy_in : Ptr → Source → ℕ → M (Unit {0})
copy_in p none n = store_bytes p (replicate n 0)
copy_in p (some xs) n = defined_if (leb n (length xs)) >> store_bytes p (take n xs)

unfoldable pub advance : Source → ℕ → Source
advance none n = none
advance (some xs) n = some (drop n xs)

-- the loop over the blocks after the first
unfoldable pub write_blocks : ℕ → ℕ → Source → ℕ → M (Unit {0})
write_blocks zero bh cursor remaining = λ _. hang
write_blocks (suc fuel) bh cursor remaining = if remaining == 0 then pure tt else do
  s ← get
  next ← get_next_block bh
  let to_write = min (s_blocksize s) remaining
  copy_in (at next 0) cursor to_write
  write_blocks fuel next (advance cursor to_write) (remaining - to_write)

-- Each round writes a byte at least, so `length` rounds and one are enough.
unfoldable pub write_data_storage : ℕ → Source → ℕ → M (Unit {0})
write_data_storage storage src length = do
  first ← load_blockoff storage
  let to_write = min first.bytes_left length
  copy_in first.ptr src to_write
  write_blocks (suc length) first.ptr.block (advance src to_write) (length - to_write)

-- `copy_to_user` is a parameter: whether `n` bytes can be copied to the cursor `c`.
module _ (copy_to_user : ℕ → ℕ → Bool) where
  unfoldable pub read_blocks : ℕ → ℕ → ℕ → ℕ → M (List ℕ)
  read_blocks zero bh cursor remaining = λ _. hang
  read_blocks (suc fuel) bh cursor remaining = if remaining == 0 then pure [] else do
    s ← get
    next ← get_next_block bh
    let to_read = min (s_blocksize s) remaining
    xs ← load_bytes (at next 0) to_read
    bug_on (not (copy_to_user cursor to_read))
    ys ← read_blocks fuel next (cursor + to_read) (remaining - to_read)
    pure (xs ++ ys)

  -- the bytes that reach the user's buffer
  unfoldable pub read_data_storage : ℕ → ℕ → M (List ℕ)
  read_data_storage storage length = do
    first ← load_blockoff storage
    let to_read = min first.bytes_left length
    xs ← load_bytes first.ptr to_read
    bug_on (not (copy_to_user 0 to_read))
    ys ← read_blocks (suc length) first.ptr.block to_read (length - to_read)
    pure (xs ++ ys)

  -- `to_read` is signed in the source; where it is not positive, 0 bytes are read.
  unfoldable pub chunk_copy_into_buffer : ChunkEntry → ℕ → ℕ → M (List ℕ)
  chunk_copy_into_buffer chunk count pos =
      let to_read = min count (chunk.size - pos) in
      if to_read == 0
      then pure []
      else read_data_storage ((chunk.location + head_size + pos) % 2 ^ 64) to_read

unfoldable pub copy_chunk_into_storage : ℕ → ChunkHead → List ℕ → M (Unit {0})
copy_chunk_into_storage storage metadata payload = do
  write_data_storage storage (some (head_bytes metadata)) head_size
  write_data_storage ((storage + head_size) % 2 ^ 64) (some payload) metadata.chunk_length

unfoldable pub chunk_reset_hashtable : M (Unit {0})
chunk_reset_hashtable = do
  s ← get
  modify (set_heap_brk ((s.sb.hashtable + s.sb.hashtable_size) % 2 ^ 64))
  write_data_storage s.sb.hashtable none s.sb.hashtable_size

unfoldable pub chunk_fill_hashtable : ChunkHead → List ℕ → M ℕ
chunk_fill_hashtable metadata payload = do
  s ← get
  fresh_chunk ← chunk_alloc metadata.chunk_length
  index ← hashtable_hash metadata.hash
  slot ← load_blockoff (s.sb.hashtable + index * 8)
  next ← load_le 8 slot.ptr
  store_le 8 slot.ptr fresh_chunk
  copy_chunk_into_storage fresh_chunk (record metadata { next = next }) payload
  pure fresh_chunk
