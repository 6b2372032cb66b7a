-- ===== src/Itree/Common.antt =====
-- Block pointers in src/itree_common.c: from a block of a file to its zone, and new zones for blocks
-- that have none.
use cominix_fs.BitOps.{BitOps}
use cominix_fs.Bitmap.{cominix_new_block, cominix_free_block}
use cominix_fs.Fs.{
  s_blocksize, M, hang, pure, ◌>>=◌, ◌>>◌, get, bug_on, defined_if, Ptr, at, sb_bread, load_le,
  store_le, store_bytes,
}
use cominix_fs.Itree.{ℤ, block_to_path}
use cominix_fs.Prelude.{
  ℕ, zero, suc, ◌*◌, Bool, true, false, not, ◌||◌, Option, none, some, List, [], ◌∷◌, ◌++◌, ltb,
  ◌==◌, if◌then◌else◌, length, get_or, set, replicate,
}

-- Where a block pointer stands: in `i_data` of the inode, or in a block of pointers.
pub data Place : Type 0 where
  in_inode : ℕ → Place
  in_block : Ptr → Place

-- `bh` is the block of `p`.
pub record Indirect : Type 0 where
  pub p : Place
  pub key : ℕ

-- `*p`
unfoldable pub read_pointer : List ℕ → Place → M ℕ
read_pointer i_data (in_inode n) = do defined_if (ltb n (length i_data)); pure (get_or i_data n 0)
read_pointer i_data (in_block q) = load_le 4 q

unfoldable pub write_pointer : Place → ℕ → List ℕ → M (List ℕ)
write_pointer (in_inode n) v i_data = do defined_if (ltb n (length i_data)); pure (set i_data n v)
write_pointer (in_block q) v i_data = do store_le 4 q v; pure i_data

-- `verify_chain` of the whole list
unfoldable pub verify_chain : List ℕ → List Indirect → M Bool
verify_chain i_data [] = pure true
verify_chain i_data (c ∷ chain) = do
  v ← read_pointer i_data c.p
  if c.key == v then verify_chain i_data chain else pure false

-- What `get_branch` leaves: the links before the last, the last, whether it is the block itself
-- (the source returns NULL then), and the error. 5 is `EIO`, 11 is `EAGAIN`.
pub record Branch : Type 0 where
  pub before : List Indirect
  pub last : Indirect
  pub complete : Bool
  pub err : ℕ

-- the rest of the way from the link `p`, whose key is not 0
unfoldable pub follow : List ℕ → List ℕ → List Indirect → Indirect → M Branch
follow i_data [] before p = pure (record { before = before; last = p; complete = true; err = 0 })
follow i_data (o ∷ offsets) before p = do
  bh ← sb_bread p.key
  elim bh [
    | none ↦ pure (record { before = before; last = p; complete = false; err = 5 })
    | some b ↦ do
      same ← verify_chain i_data (before ++ (p ∷ []))
      if not same
          then pure (record { before = before; last = p; complete = false; err = 11 })
          else (do
            let place = in_block (at b (4 * o))
            key ← read_pointer i_data place
            let q : Indirect = record { p = place; key = key }
            if key == 0
                then pure
                    (record { before = before ++ (p ∷ []); last = q; complete = false; err = 0 })
                else follow i_data offsets (before ++ (p ∷ [])) q)
  ]

unfoldable pub get_branch : List ℕ → ℕ → List ℕ → M Branch
get_branch i_data o offsets = do
  key ← read_pointer i_data (in_inode o)
  let p : Indirect = record { p = in_inode o; key = key }
  if key == 0
      then pure (record { before = []; last = p; complete = false; err = 0 })
      else follow i_data offsets [] p

-- What `get_block` leaves: the error, the zone that the buffer is mapped to, whether it is new, and
-- `i_data`.
pub record Mapped : Type 0 where
  pub err : ℕ
  pub zone : Option ℕ
  pub is_new : Bool
  pub i_data : List ℕ

abbrev pub unmapped : ℕ → List ℕ → Mapped
unmapped e i_data = record { err = e; zone = none; is_new = false; i_data = i_data }

-- the offsets behind the links, and the last of the zones
abbrev pub drop_links : List Indirect → List ℕ → List ℕ
drop_links [] offsets = offsets
drop_links (c ∷ chain) [] = []
drop_links (c ∷ chain) (o ∷ offsets) = drop_links chain offsets

abbrev pub last_of : List ℕ → ℕ
last_of [] = 0
last_of (k ∷ []) = k
last_of (k ∷ l ∷ keys) = last_of (l ∷ keys)

-- `sb_getblk` says whether the kernel gives a buffer for a block.
module _ (ops : BitOps) (sb_getblk : ℕ → Bool) where
  unfoldable pub free_all : List ℕ → M (Unit {0})
  free_all [] = pure tt
  free_all (z ∷ zs) = do cominix_free_block ops z; free_all zs

  -- The blocks below `parent`, one for each offset. 28 is `ENOSPC`, 12 is `ENOMEM`. The result is the
  -- error and the zones taken, which an error gives back.
  unfoldable pub alloc_below : List ℕ → ℕ → List ℕ → M (ℕ × List ℕ)
  alloc_below [] parent keys = pure (0, keys)
  alloc_below (o ∷ offsets) parent keys = do
    nr ← cominix_new_block ops
    if nr == 0
        then (do free_all keys; pure (28, []))
        else if not (sb_getblk parent)
        then (do cominix_free_block ops nr; free_all keys; pure (12, []))
        else (do
          s ← get
          store_bytes (at parent 0) (replicate (s_blocksize s) 0)
          store_le 4 (at parent (4 * o)) nr
          alloc_below offsets nr (keys ++ (nr ∷ [])))

  unfoldable pub alloc_branch : List ℕ → M (ℕ × List ℕ)
  alloc_branch offsets = do
    parent ← cominix_new_block ops
    if parent == 0 then pure (28, []) else alloc_below offsets parent (parent ∷ [])

  -- The new zones go into the tree at `p`, if the way there is as it was and `p` is still vacant.
  unfoldable pub splice_branch : List ℕ → List Indirect → Place → List ℕ → M (ℕ × List ℕ)
  splice_branch i_data before p keys = do
    same ← verify_chain i_data before
    there ← read_pointer i_data p
    if not same || not (there == 0)
        then (do free_all keys; pure (11, i_data))
        else (do data' ← write_pointer p (get_or keys 0 0) i_data; pure (0, data'))

  -- `rounds` bounds how often the way is read again.
  unfoldable pub get_block_at : ℕ → ℕ → List ℕ → Bool → List ℕ → M Mapped
  get_block_at zero o offsets create i_data = λ s. hang
  get_block_at (suc rounds) o offsets create i_data = do
    bug_on ((get_or i_data 0 0 == 1) || (get_or i_data 1 0 == 1))
    w ← get_branch i_data o offsets
    let again = get_block_at rounds o offsets create i_data
    if w.complete
        then pure (record { err = 0; zone = some w.last.key; is_new = false; i_data = i_data })
        else if not create || (w.err == 5)
        then pure (unmapped w.err i_data)
        else if w.err == 11
        then again
        else (do
          a ← alloc_branch (drop_links w.before offsets)
          if not (a.0 == 0) then pure (unmapped a.0 i_data) else (do
            r ← splice_branch i_data w.before w.last.p a.1
            if not (r.0 == 0)
                then again
                else pure
                    (record { err = 0; zone = some (last_of a.1); is_new = true; i_data = r.1 })))

  abbrev pub get_block_path : ℕ → Bool → List ℕ → List ℕ → M Mapped
  get_block_path rounds create i_data [] = pure (unmapped 5 i_data)
  get_block_path rounds create i_data (o ∷ offsets) = get_block_at rounds o offsets create i_data

  -- `s_maxbytes` and the block number come from the kernel.
  unfoldable pub get_block : ℕ → ℕ → ℤ → Bool → List ℕ → M Mapped
  get_block rounds s_maxbytes block create i_data = do
    s ← get
    get_block_path rounds create i_data (block_to_path s.s_blocksize_bits s_maxbytes block)
