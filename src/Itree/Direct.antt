-- ===== src/Itree/Direct.antt =====
-- `truncate` of src/itree_common.c for a file whose blocks are all direct.
use cominix_fs.BitOps.{BitOps}
use cominix_fs.Bitmap.Alloc.{ZmapOk}
use cominix_fs.Fs.{Fs, M, ok, s_blocksize}
use cominix_fs.Itree.{pos, block_to_path}
use cominix_fs.Itree.Path.{block_to_path_direct}
use cominix_fs.Itree.Lookup.{read_pointer-inode}
use cominix_fs.Itree.Truncate.{free_data, do_indirects, truncate_path, truncate}
use cominix_fs.Prelude.{
  ℕ, zero, suc, ◌+◌, ◌-◌, ◌*◌, ◌/◌, ◌^◌, ◌<◌, ◌≤◌, ◌≡◌, refl, ap, ◌∙◌, ◌&&◌, inl, inr, List, [],
  ◌∷◌, arith, Bool-cases, ltb, leb, ◌==◌, ==_iff, if◌then◌else◌, length, get_or,
}
use cominix_fs.Itree.FreeData.{InData, CutOff, free_data-CutOff}

module _ (ops : BitOps) where
  -- no subtrees, nothing to do
  do_indirects-none :
      (rounds first : ℕ) (i_data : List ℕ) (s : Fs)
      → 7 + first + rounds ≤ length i_data
      → ((j : ℕ) → 7 + first ≤ j → j < 7 + first + rounds → get_or i_data j 0 ≡ 0)
      → do_indirects ops rounds first i_data s ≡ ok i_data s
  unfolding do_indirects
  do_indirects-none zero first i_data s h empty = refl
  do_indirects-none (suc rounds) first i_data s h empty =
      rw
        (
          read_pointer-inode s i_data (7 + first) (omega arith),
          empty (7 + first) (omega arith) (omega arith),
        )
        (do_indirects-none rounds (first + 1) i_data s (omega arith)
          (λ j lo hi. empty j (omega arith) (omega arith)))

  past_end :
      (o j : ℕ) (i_data : List ℕ)
      → o ≤ 7
      → 7 + 0 ≤ j
      → j < 7 + 0 + 3
      → get_or i_data 7 0 ≡ 0
      → get_or i_data 8 0 ≡ 0
      → get_or i_data 9 0 ≡ 0
      → (if leb o j && ltb j (o + (7 - o)) then 0 else get_or i_data j 0) ≡ 0
  past_end o j i_data small lo hi e_7 e_8 e_9 =
      let old : get_or i_data j 0 ≡ 0 = elim (Bool-cases (j == 7)) [
        | inl a ↦ ap (λ i. get_or i_data i 0) ((==_iff j 7).0 a) ∙ e_7
        | inr a ↦ elim (Bool-cases (j == 8)) [
          | inl b ↦ ap (λ i. get_or i_data i 0) ((==_iff j 8).0 b) ∙ e_8
          | inr b ↦ let last : j ≡ 9 = ground arith in ap (λ i. get_or i_data i 0) last ∙ e_9
        ]
      ] in
      ground (arith, old)

  -- On well-formed zone maps, for an inode whose pointers are 0 or zones of the data area, with
  -- none in the three indirect places, for a new size whose first block past the end is one of the
  -- seven direct ones and begins within the size limit, of at most 2 ^ 64 bytes, and where the
  -- kernel clears the end of the last page: `truncate` ends without a fault, sets the pointers from
  -- that block on to 0 and keeps the others, clears the bits of the zones they held and no other
  -- bit, and changes nothing but the zone maps.
  pub truncate-CutOff :
      (s : Fs) (block_truncate_page : ℕ → M (Unit {0})) (s_maxbytes i_size : ℕ) (i_data : List ℕ)
      (o : ℕ)
      → ZmapOk s
      → ((n : ℕ) → block_truncate_page n s ≡ ok tt s)
      → (i_size + s_blocksize s - 1) / s_blocksize s ≡ o
      → o < 7
      → o * s_blocksize s < s_maxbytes
      → s_maxbytes ≤ 2 ^ 64
      → 10 ≤ length i_data
      → InData s i_data
      → get_or i_data 7 0 ≡ 0
      → get_or i_data 8 0 ≡ 0
      → get_or i_data 9 0 ≡ 0
      → (data' : List ℕ) × (s' : Fs) × (truncate ops block_truncate_page s_maxbytes i_size i_data s
          ≡ ok data' s')
        × CutOff s i_data (7 - o) o data' s'
  unfolding truncate free_data
  truncate-CutOff s block_truncate_page s_maxbytes i_size i_data o v page first direct within limit
        enough inside e_7 e_8 e_9 =
      let path : block_to_path s.s_blocksize_bits s_maxbytes
            (pos ((i_size + s_blocksize s - 1) / s_blocksize s))
          ≡ o ∷ [] =
        ap (λ b. block_to_path s.s_blocksize_bits s_maxbytes (pos b)) first
        ∙ block_to_path_direct s.s_blocksize_bits s_maxbytes o direct within limit in
      let (data', s', run, (len, cells, bits, only)) =
        free_data-CutOff ops (7 - o) o i_data s v (omega arith) inside in
      let empty : (j : ℕ) → 7 + 0 ≤ j → j < 7 + 0 + 3 → get_or data' j 0 ≡ 0 =
        λ j lo hi. cells j ∙ past_end o j i_data (omega arith) lo hi e_7 e_8 e_9 in
      (
        data',
        s',
        rw (page i_size) (
            ap (λ offsets. truncate_path ops offsets i_data s) path
            ∙ rw run (do_indirects-none 3 0 data' s' (omega (arith, len)) empty)),
        (len, cells, bits, only),
      )
