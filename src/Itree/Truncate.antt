-- ===== src/Itree/Truncate.antt =====
-- Truncation in src/itree_common.c, and `cominix_truncate` and `cominix_evict_inode` of src/inode.c.
-- Times are left out.
use cominix_fs.BitOps.{BitOps}
use cominix_fs.Bitmap.{cominix_free_block, cominix_free_inode}
use cominix_fs.Fs.{s_blocksize, M, pure, ◌>>=◌, ◌>>◌, get, at, shift, sb_bread}
use cominix_fs.Inode.{
  Inode, FileType, regular, directory, symlink, char_device, block_device, other_type,
  inode_is_chunked,
}
use cominix_fs.Itree.{pos, block_to_path}
use cominix_fs.Itree.Common.{
  Place, in_inode, in_block, Indirect, read_pointer, write_pointer, get_branch,
}
use cominix_fs.Prelude.{
  ℕ, zero, suc, ◌+◌, ◌-◌, ◌/◌, Bool, true, false, not, ◌&&◌, none, some, List, [], ◌∷◌, ◌==◌,
  if◌then◌else◌, length,
}

-- `p + 1` and `p - 1`
abbrev pub next_place : Place → Place
next_place (in_inode n) = in_inode (n + 1)
next_place (in_block q) = in_block (shift q 4)

abbrev pub previous_place : Place → Place
previous_place (in_inode n) = in_inode (n - 1)
previous_place (in_block q) = in_block (at q.block (q.offset - 4))

-- `all_zeroes`: the `rounds` pointers from `p` on
unfoldable pub all_zeroes : ℕ → Place → List ℕ → M Bool
all_zeroes zero p i_data = pure true
all_zeroes (suc rounds) p i_data = do
  v ← read_pointer i_data p
  if v == 0 then all_zeroes rounds (next_place p) i_data else pure false

-- the pointers of its block before `p`, and behind `p`
unfoldable pub zeroes_before : Place → List ℕ → M Bool
zeroes_before (in_inode n) i_data = pure true
zeroes_before (in_block q) i_data = all_zeroes (q.offset / 4) (in_block (at q.block 0)) i_data

-- the links from the last on, without those that only zeroes stand before; the first link stays
unfoldable pub climb : List ℕ → Indirect → List Indirect → M (List Indirect)
climb i_data c [] = pure (c ∷ [])
climb i_data c (above ∷ links) = do
  zeroes ← zeroes_before c.p i_data
  if zeroes then climb i_data above links else pure (c ∷ above ∷ links)

abbrev pub reverse_onto : List Indirect → List Indirect → List Indirect
reverse_onto [] acc = acc
reverse_onto (c ∷ chain) acc = reverse_onto chain (c ∷ acc)

-- The offsets without the zeroes at their end.
unfoldable pub trim : List ℕ → List ℕ
trim [] = []
trim (o ∷ offsets) = elim (trim offsets) [
  | [] ↦ if o == 0 then [] else o ∷ []
  | p ∷ rest ↦ o ∷ p ∷ rest
]

-- What `find_shared` leaves: the links down to the one that it returns, the last first, the pointer
-- that it cuts off, or 0, and `i_data`.
pub record Shared : Type 0 where
  pub links : List Indirect
  pub top : ℕ
  pub i_data : List ℕ

-- `full` is whether the first link is the last of the whole way: then the pointers from it on go,
-- and it moves back by one. Otherwise its pointer is cut off.
unfoldable pub cut : Bool → List Indirect → List ℕ → M Shared
cut full [] i_data = pure (record { links = []; top = 0; i_data = i_data })
cut full (c ∷ links) i_data =
    if full && not (length links == 0)
    then pure
        (record { links = (record c { p = previous_place c.p }) ∷ links; top = 0; i_data = i_data })
    else (do
      top ← read_pointer i_data c.p
      data' ← write_pointer c.p 0 i_data
      pure (record { links = c ∷ links; top = top; i_data = data' }))

unfoldable pub find_shared : ℕ → List ℕ → List ℕ → M Shared
find_shared o offsets i_data = do
  let kept = trim offsets
  w ← get_branch i_data o kept
  there ← read_pointer i_data w.last.p
  if (w.last.key == 0) && not (there == 0)
      then pure (record { links = w.last ∷ reverse_onto w.before []; top = 0; i_data = i_data })
      else (do
        links ← climb i_data w.last (reverse_onto w.before [])
        cut (length links == length kept + 1) links i_data)

module _ (ops : BitOps) where
  -- The loop of `free_data` and `free_branches` over `rounds` pointers from `p` on; `release` is
  -- what is done with a zone.
  unfoldable pub free_range : (ℕ → List ℕ → M (List ℕ)) → ℕ → Place → List ℕ → M (List ℕ)
  free_range release zero p i_data = pure i_data
  free_range release (suc rounds) p i_data = do
    nr ← read_pointer i_data p
    if nr == 0 then free_range release rounds (next_place p) i_data else (do
      data₁ ← write_pointer p 0 i_data
      data₂ ← release nr data₁
      free_range release rounds (next_place p) data₂)

  -- A zone of data, or a block of pointers over `depth` levels; one that cannot be read stays.
  unfoldable pub release : ℕ → ℕ → List ℕ → M (List ℕ)
  release zero nr i_data = do cominix_free_block ops nr; pure i_data
  release (suc depth) nr i_data = do
    bh ← sb_bread nr
    elim bh [
      | none ↦ pure i_data
      | some b ↦ do
        s ← get
        data' ← free_range (release depth) (s_blocksize s / 4) (in_block (at b 0)) i_data
        cominix_free_block ops nr
        pure data'
    ]

  unfoldable pub free_data : ℕ → Place → List ℕ → M (List ℕ)
  free_data = free_range (release 0)

  unfoldable pub free_branches : ℕ → Place → ℕ → List ℕ → M (List ℕ)
  free_branches rounds p depth = free_range (release depth) rounds p

  -- `free_branches(inode, &nr, &nr+1, depth)` for a local `nr`
  unfoldable pub free_local : ℕ → ℕ → List ℕ → M (List ℕ)
  free_local nr depth i_data = if nr == 0 then pure i_data else release depth nr i_data

  -- The pointers behind each link of the shared way but the first; `n` is the length of the way.
  unfoldable pub free_ends : ℕ → List Indirect → List ℕ → M (List ℕ)
  free_ends n [] i_data = pure i_data
  free_ends n (c ∷ links) i_data =
      let depth = n - 1 - length links in
      let rest = free_ends n links in
      if length links == 0 then pure i_data else (elim c.p [
        | in_inode k ↦ rest i_data
        | in_block q ↦ do
          s ← get
          data' ←
              free_branches ((s_blocksize s - (q.offset + 4)) / 4) (in_block (shift q 4)) depth
                i_data
          rest data'
      ])

  -- `do_indirects`: the whole subtrees from number `first_whole` on
  unfoldable pub do_indirects : ℕ → ℕ → List ℕ → M (List ℕ)
  do_indirects zero first_whole i_data = pure i_data
  do_indirects (suc rounds) first_whole i_data = do
    nr ← read_pointer i_data (in_inode (7 + first_whole))
    if nr == 0 then do_indirects rounds (first_whole + 1) i_data else (do
      data₁ ← write_pointer (in_inode (7 + first_whole)) 0 i_data
      data₂ ← free_local nr (first_whole + 1) data₁
      do_indirects rounds (first_whole + 1) data₂)

  -- the part of `truncate` behind `block_to_path`
  abbrev pub truncate_path : List ℕ → List ℕ → M (List ℕ)
  truncate_path [] i_data = pure i_data
  truncate_path (o ∷ []) i_data = do
    data₁ ← free_data (7 - o) (in_inode o) i_data
    do_indirects 3 0 data₁
  truncate_path (o ∷ p ∷ offsets) i_data = do
    let n = length offsets + 2
    shared ← find_shared o (p ∷ offsets) i_data
    data₁ ← free_local shared.top (n - length shared.links) shared.i_data
    data₂ ← free_ends n shared.links data₁
    do_indirects (3 - (o + 1 - 7)) (o + 1 - 7) data₂

  -- `block_truncate_page` is the kernel's: it clears the end of the last page.
  unfoldable pub truncate : (ℕ → M (Unit {0})) → ℕ → ℕ → List ℕ → M (List ℕ)
  truncate block_truncate_page s_maxbytes i_size i_data = do
    s ← get
    block_truncate_page i_size
    truncate_path
        (block_to_path s.s_blocksize_bits s_maxbytes
          (pos ((i_size + s_blocksize s - 1) / s_blocksize s)))
        i_data

  -- A chunked inode is left as it is, and one without blocks of its own.
  unfoldable pub truncated : (ℕ → M (Unit {0})) → ℕ → Inode → M Inode
  truncated block_truncate_page s_maxbytes i = do
    data' ← truncate block_truncate_page s_maxbytes i.i_size i.i_data
    pure (record i { i_data = data' })

  unfoldable pub cominix_truncate : (ℕ → FileType) → (ℕ → M (Unit {0})) → ℕ → Inode → M Inode
  cominix_truncate file_type block_truncate_page s_maxbytes i =
      if inode_is_chunked i then pure i else elim (file_type i.i_mode) [
        | regular ↦ truncated block_truncate_page s_maxbytes i
        | directory ↦ truncated block_truncate_page s_maxbytes i
        | symlink ↦ truncated block_truncate_page s_maxbytes i
        | char_device ↦ pure i
        | block_device ↦ pure i
        | other_type ↦ pure i
      ]

  -- Where the last link is gone the zones and the number are given back.
  unfoldable pub cominix_evict_inode : (ℕ → FileType) → (ℕ → M (Unit {0})) → ℕ → Inode → M Inode
  cominix_evict_inode file_type block_truncate_page s_maxbytes i =
      if i.i_nlink == 0
      then (do
        i' ← cominix_truncate file_type block_truncate_page s_maxbytes (record i { i_size = 0 })
        cominix_free_inode ops i'.i_ino
        pure i')
      else pure i
