-- ===== src/Itree/Lookup.antt =====
-- `get_block` of src/itree_common.c without `create`: the way through the block pointers.
use cominix_fs.BitOps.{BitOps}
use cominix_fs.Disk.{get_bytes, from_le}
use cominix_fs.Fs.{Fs, ok, s_blocksize, at, sb_bread, load_bytes, load_le}
use cominix_fs.Itree.{ℤ, block_to_path}
use cominix_fs.Itree.Common.{
  in_inode, in_block, Indirect, read_pointer, verify_chain, Branch, follow, get_branch, Mapped,
  unmapped, get_block_at, get_block_path, get_block,
}
use cominix_fs.Prelude.{
  ℕ, suc, ◌+◌, ◌*◌, ◌<◌, ◌≤◌, ◌≡◌, ◌≢◌, refl, ap, ◌∙◌, Bool, true, false, inl, inr, Option, none,
  some, List, [], ◌∷◌, ◌++◌, arith, Bool-cases, lt→ltb, le→leb, ◌==◌, ==_iff, ==_self, ==_ne,
  if◌then◌else◌, length, get_or,
}

-- The pointers on the disk, followed from the zone `z`: the zone at the end, 0 for a hole, or
-- nothing where a block of pointers cannot be read.
abbrev pub pointer : Fs → ℕ → ℕ → ℕ
pointer s z o = from_le (get_bytes s.disk z (4 * o) 4)

unfoldable pub walk : Fs → ℕ → List ℕ → Option ℕ
walk s z [] = some z
walk s z (o ∷ offsets) =
    let next = pointer s z o in
    let rest = walk s next offsets in
    if s.readable z then (if next == 0 then some 0 else rest) else none

-- what `get_block` makes of it
abbrev pub answer : List ℕ → Option ℕ → Mapped
answer i_data none = unmapped 5 i_data
answer i_data (some z) =
    if z == 0
    then unmapped 0 i_data
    else record { err = 0; zone = some z; is_new = false; i_data = i_data }

-- the offsets lie inside a block
abbrev pub InBlock : Fs → List ℕ → Type 0
InBlock s [] = Unit
InBlock s (o ∷ offsets) = (4 * o + 4 ≤ s_blocksize s) × InBlock s offsets

-- what the caller of `get_branch` takes from it
abbrev mapped_of : List ℕ → Branch → Mapped
mapped_of i_data w =
    if w.complete
    then record { err = 0; zone = some w.last.key; is_new = false; i_data = i_data }
    else unmapped w.err i_data

module _ (s : Fs) (i_data : List ℕ) where
  -- the links are as they were read
  abbrev AllRead : List Indirect → Type 0
  AllRead [] = Unit
  AllRead (c ∷ chain) = (read_pointer i_data c.p s ≡ ok c.key s) × AllRead chain

  AllRead-append :
      (before : List Indirect) (p : Indirect)
      → AllRead before
      → read_pointer i_data p.p s ≡ ok p.key s
      → AllRead (before ++ (p ∷ []))
  AllRead-append [] p v r = (r, tt)
  AllRead-append (c ∷ before) p (e, v) r = (e, AllRead-append before p v r)

  verify_chain-true :
      (chain : List Indirect) → AllRead chain → verify_chain i_data chain s ≡ ok true s
  unfolding verify_chain
  verify_chain-true [] v = refl
  verify_chain-true (c ∷ chain) (e, v) = rw (e, ==_self c.key) (verify_chain-true chain v)

  pub read_pointer-inode :
      (o : ℕ) → o < length i_data → read_pointer i_data (in_inode o) s ≡ ok (get_or i_data o 0) s
  unfolding read_pointer
  read_pointer-inode o lt = rw (lt→ltb o (length i_data) lt)

  read_pointer-block :
      (z o : ℕ)
      → 4 * o + 4 ≤ s_blocksize s
      → read_pointer i_data (in_block (at z (4 * o))) s ≡ ok (pointer s z o) s
  unfolding read_pointer load_le load_bytes
  read_pointer-block z o h = rw (le→leb (4 * o + 4) (s_blocksize s) h)

  follow-walk :
      (offsets : List ℕ) (before : List Indirect) (p : Indirect)
      → AllRead before
      → read_pointer i_data p.p s ≡ ok p.key s
      → p.key ≢ 0
      → InBlock s offsets
      → (w : Branch) × (follow i_data offsets before p s ≡ ok w s)
        × (mapped_of i_data w ≡ answer i_data (walk s p.key offsets))
  unfolding follow walk sb_bread
  follow-walk [] before p v r ne h =
      (record { before = before; last = p; complete = true; err = 0 }, refl, rw (==_ne p.key 0 ne))
  follow-walk (o ∷ offsets) before p v r ne (fit, h) =
      let all = AllRead-append before p v r in
      let v' = verify_chain-true (before ++ (p ∷ [])) all in
      let r' = read_pointer-block p.key o fit in
      elim (Bool-cases (s.readable p.key)) [
        | inr e ↦ (record { before = before; last = p; complete = false; err = 5 }, rw e, rw e)
        | inl e ↦
            let q : Indirect = record {
              p = in_block (at p.key (4 * o));
              key = pointer s p.key o;
            } in
            elim (Bool-cases (q.key == 0)) [
              | inl hole ↦ (
                record { before = before ++ (p ∷ []); last = q; complete = false; err = 0 },
                rw (e, v', r', hole),
                rw (e, hole),
              )
              | inr there ↦
                  let ne' : q.key ≢ 0 = λ z. cc (there, (==_iff q.key 0).1 z) in
                  let (w, run, found) = follow-walk offsets (before ++ (p ∷ [])) q all r' ne' h in
                  (w, rw (e, v', r', there) run, rw (e, there) found)
            ]
      ]

  get_branch-walk :
      (o : ℕ) (offsets : List ℕ)
      → o < length i_data
      → InBlock s offsets
      → (w : Branch) × (get_branch i_data o offsets s ≡ ok w s)
        × (mapped_of i_data w
            ≡ answer i_data
                (if get_or i_data o 0 == 0 then some 0 else walk s (get_or i_data o 0) offsets))
  unfolding get_branch
  get_branch-walk o offsets lt h =
      let p : Indirect = record { p = in_inode o; key = get_or i_data o 0 } in
      let r : read_pointer i_data (in_inode o) s ≡ ok p.key s = read_pointer-inode o lt in
      elim (Bool-cases (p.key == 0)) [
        | inl e ↦ (record { before = []; last = p; complete = false; err = 0 }, rw (r, e), rw e)
        | inr e ↦
            let ne : p.key ≢ 0 = λ z. cc (e, (==_iff p.key 0).1 z) in
            let (w, run, found) = follow-walk offsets [] p tt r ne h in
            (w, rw (r, e) run, rw e found)
      ]

  -- For a path with offsets inside the inode's pointers and inside a block, and where neither of
  -- the first two pointers is 1, `get_block` without `create` needs one reading of the way and
  -- changes nothing. It returns what following the pointers on the device gives: the zone at the
  -- end, no zone at a hole, or an I/O error at a block of pointers that cannot be read.
  pub get_block-walk :
      (ops : BitOps) (sb_getblk : ℕ → Bool) (rounds s_maxbytes : ℕ) (block : ℤ) (o : ℕ)
      (offsets : List ℕ)
      → block_to_path s.s_blocksize_bits s_maxbytes block ≡ o ∷ offsets
      → o < length i_data
      → InBlock s offsets
      → get_or i_data 0 0 ≢ 1
      → get_or i_data 1 0 ≢ 1
      → get_block ops sb_getblk (rounds + 1) s_maxbytes block false i_data s
        ≡ ok
            (answer i_data
              (if get_or i_data o 0 == 0 then some 0 else walk s (get_or i_data o 0) offsets))
            s
  unfolding get_block get_block_at
  get_block-walk ops sb_getblk rounds s_maxbytes block o offsets path lt h not_0 not_1 =
      let (w, run, found) = get_branch-walk o offsets lt h in
      let z : rounds + 1 ≡ suc rounds = omega arith in
      ap (λ offs. get_block_path ops sb_getblk (rounds + 1) false i_data offs s) path
      ∙ rw (z, ==_ne (get_or i_data 0 0) 1 not_0, ==_ne (get_or i_data 1 0) 1 not_1, run, ← found)
          (elim (Bool-cases w.complete) [ inl e ↦ rw e | inr e ↦ rw e ])
