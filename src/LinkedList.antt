-- ===== src/LinkedList.antt =====
-- src/linked_list.h: a file's list of chunks, kept in blocks of the zone area. A block holds an
-- array of entries and, in its last 4 bytes, the number of the next block.
pub mod Search
pub mod Segment
pub mod Frame
pub mod Write
pub mod Fresh
pub mod Append
pub mod Extend
pub mod Grow
pub mod Heap
use cominix_fs.Prelude.{
  ℕ, zero, suc, ◌+◌, ◌-◌, ◌*◌, ◌/◌, ◌%◌, ◌^◌, Bool, true, false, not, ◌&&◌, Option, none, some,
  List, [], ◌∷◌, ◌++◌, ltb, leb, ◌==◌, if◌then◌else◌, replicate,
}
use cominix_fs.BitOps.{BitOps}
use cominix_fs.Bitmap.{cominix_new_block_sb}
use cominix_fs.Chunk.{ChunkEntry}
use cominix_fs.Disk.{to_le}
use cominix_fs.Fs.{
  is_null, Fs, s_blocksize, M, bug, hang, pure, ◌>>=◌, ◌>>◌, get, bug_on, Ptr, at, shift,
  store_bytes, load_le, store_le, b_data, load_block,
}

abbrev pub entries_per_block : Fs → ℕ
entries_per_block s = s_blocksize s / 16 - 1

abbrev pub entry_of : ℕ → ℕ → ChunkEntry
entry_of l n = record { location = l; size = n }

unfoldable pub ptr_next : Fs → Ptr → Ptr
ptr_next s node = shift node (s_blocksize s - 4)

-- `arr[i]` of the array at `arr`
unfoldable pub load_entry : Ptr → ℕ → M ChunkEntry
load_entry arr i = do
  location ← load_le 8 (shift arr (16 * i))
  size ← load_le 8 (shift arr (16 * i + 8))
  pure (entry_of location size)

unfoldable pub store_entry : Ptr → ℕ → ChunkEntry → M (Unit {0})
store_entry arr i e = store_bytes (shift arr (16 * i)) (to_le 8 e.location ++ to_le 8 e.size)

unfoldable pub zero_out_block : ℕ → M (Unit {0})
zero_out_block block = do
  bh ← load_block block
  data_ptr ← b_data bh
  s ← get
  store_bytes data_ptr (replicate (s_blocksize s) 0)

-- the end of `ll_append`: entry `i` of the block `bh`, and the new `(*end, *ll_size)`
unfoldable pub put_entry : Option ℕ → ℕ → ℕ → ℕ → ChunkEntry → M (ℕ × ℕ)
unfolding b_data
put_entry bh i end ll_size new_entry = do
  bug_on (is_null bh)
  arr ← b_data bh
  store_entry arr i new_entry
  pure (end, ll_size + 1)

module _ (ops : BitOps) where
  unfoldable pub ll_alloc_new_block : M ℕ
  ll_alloc_new_block = do new ← cominix_new_block_sb ops; bug_on (new == 0); pure new

  -- `(*end, *ll_size)` is returned anew.
  unfoldable pub ll_append : ℕ → ℕ → ChunkEntry → M (ℕ × ℕ)
  ll_append end ll_size new_entry = do
    s ← get
    bh ← load_block end
    let i = ll_size % entries_per_block s
    if i == 0 && not (ll_size == 0)
        then (do
          fresh ← ll_alloc_new_block
          node ← b_data bh
          store_le 4 (ptr_next s node) fresh
          bh' ← load_block fresh
          data_ptr ← b_data bh'
          store_bytes data_ptr (replicate (s_blocksize s) 0)
          put_entry bh' i fresh ll_size new_entry)
        else put_entry bh i end ll_size new_entry

-- `a < b` for two `ssize_t`s, given as words of 64 bits
unfoldable pub slt : ℕ → ℕ → Bool
slt a b = ltb ((a + 2 ^ 63) % 2 ^ 64) ((b + 2 ^ 63) % 2 ^ 64)

-- The entries of one block from `i` on: the entry that `pos` falls into, if any, and `*accum`.
-- `pos`, `*accum` and the sizes are words of 64 bits.
unfoldable pub search_entries : ℕ → ℕ → Ptr → ℕ → ℕ → M (Option ChunkEntry × ℕ)
unfolding slt
search_entries zero i arr pos accum = pure (none, accum)
search_entries (suc rounds) i arr pos accum = do
  e ← load_entry arr i
  if e.size == 0
      then pure (none, accum)
      else if slt pos ((accum + e.size) % 2 ^ 64)
      then pure (some e, accum)
      else search_entries rounds (i + 1) arr pos ((accum + e.size) % 2 ^ 64)

-- The entry that `pos` falls into and the position where it begins; `{0, 0}` past the end.
unfoldable pub ll_search_left : ℕ → ℕ → ℕ → ℕ → M (ChunkEntry × ℕ)
unfolding b_data slt
ll_search_left zero head pos accum = λ _. hang
ll_search_left (suc fuel) head pos accum = do
  bug_on (slt pos accum)
  s ← get
  bh ← load_block head
  arr ← b_data bh
  found ← search_entries (entries_per_block s) 0 arr pos accum
  elim found.0 [
    | some e ↦ pure (e, found.1)
    | none ↦ do
      next ← load_le 4 (ptr_next s arr)
      if next == 0 then pure (entry_of 0 0, found.1) else ll_search_left fuel next pos found.1
  ]
