-- ===== src/Itree/FreeData.antt =====
-- `free_data` of src/itree_common.c on the pointers of an inode.
use cominix_fs.BitOps.{BitOps}
use cominix_fs.Bitmap.{bits_per_zone}
use cominix_fs.Bitmap.Alloc.{ZmapOk, busy, zmap_bits, w_pos}
use cominix_fs.Bitmap.Free.{unmarked, free_block-run}
use cominix_fs.Bitmap.Maps.{bit_at-unmark}
use cominix_fs.Fs.{Fs, M, ok, s_blocksize}
use cominix_fs.Itree.Common.{in_inode, write_pointer}
use cominix_fs.Itree.Lookup.{read_pointer-inode}
use cominix_fs.Itree.Truncate.{release, free_range}
use cominix_fs.Prelude.{
  ℕ, zero, suc, ◌+◌, ◌-◌, ◌*◌, ◌/◌, ◌<◌, ◌≤◌, ◌≡◌, refl, sym, ap, ◌∙◌, Bool, false, not, ◌&&◌, ◌||◌,
  ◌⊎◌, inl, inr, List, arith, Bool-cases, ltb, leb, lt→ltb, ◌==◌, ==_iff, ==_ne, if◌then◌else◌,
  length, get_or, set, length-set, get_or-set_self, get_or-set_other,
}

-- each pointer of the inode is 0 or a zone of the data area
abbrev pub InData : Fs → List ℕ → Type 0
InData s i_data =
    (j : ℕ)
    → (get_or i_data j 0 ≡ 0)
      ⊎ ((s.sb.s_firstdatazone ≤ get_or i_data j 0) × (get_or i_data j 0 < s.sb.s_nzones))

-- whether bit `n` stands for a zone that one of the `rounds` pointers from `o` on holds
unfoldable pub held : Fs → List ℕ → ℕ → ℕ → ℕ → Bool
held s i_data zero o n = false
held s i_data (suc rounds) o n =
    (not (get_or i_data o 0 == 0) && (get_or i_data o 0 - s.sb.s_firstdatazone + 1 == n))
    || held s i_data rounds (o + 1) n

-- What is left when these pointers are cut off and their zones are freed.
abbrev pub CutOff : Fs → List ℕ → ℕ → ℕ → List ℕ → Fs → Type 0
CutOff s i_data rounds o data' s' =
    (length data' ≡ length i_data)
    × ((j : ℕ)
        → get_or data' j 0 ≡ (if leb o j && ltb j (o + rounds) then 0 else get_or i_data j 0))
    × ((n : ℕ) → busy s' n ≡ (if held s i_data rounds o n then false else busy s n))
    × (s' ≡ record s { s_zmap = s'.s_zmap })

module _ (ops : BitOps) where
  unmarked-ZmapOk :
      (s : Fs) → ZmapOk s → (n : ℕ) → 0 < n → n < zmap_bits s → ZmapOk (unmarked ops s n)
  unmarked-ZmapOk s v n positive inside =
      let same = length-set s.s_zmap (n / bits_per_zone s) _ in
      let bits = ap (λ l. l * bits_per_zone s) same in
      record {
        sized = same ∙ v.sized;
        zero_taken =
            bit_at-unmark ops (bits_per_zone s) (w_pos ops s) s.s_zmap n 0 inside
            ∙ rw (==_ne n 0 (λ e. omega arith)) v.zero_taken;
        first_pos = v.first_pos;
        enough = omega (arith, bits, v.enough);
        small = omega (arith, bits, v.small);
      }

  -- the pointers that follow hold what they held
  held_congr :
      (s s' : Fs) (a b : List ℕ) (rounds o n : ℕ)
      → s'.sb ≡ s.sb
      → ((j : ℕ) → o ≤ j → get_or a j 0 ≡ get_or b j 0)
      → held s' a rounds o n ≡ held s b rounds o n
  unfolding held
  held_congr s s' a b zero o n same h = refl
  held_congr s s' a b (suc rounds) o n same h = rw (
    h o (omega arith),
    ap (λ (x : cominix_fs.Fs.SbInfo). x.s_firstdatazone) same,
    held_congr s s' a b rounds (o + 1) n same (λ j le. h j (omega arith)),
  )

  write_pointer-inode :
      (o v : ℕ) (i_data : List ℕ) (s : Fs)
      → o < length i_data
      → write_pointer (in_inode o) v i_data s ≡ ok (set i_data o v) s
  unfolding write_pointer
  write_pointer-inode o v i_data s lt = rw (lt→ltb o (length i_data) lt)

  -- the cells from `o` on, where the one at `o` is 0 or is set to 0
  skip_hole :
      (i_data : List ℕ) (o rounds : ℕ)
      → get_or i_data o 0 ≡ 0
      → (j : ℕ)
      → (if leb (o + 1) j && ltb j (o + 1 + rounds) then 0 else get_or i_data j 0)
        ≡ (if leb o j && ltb j (o + suc rounds) then 0 else get_or i_data j 0)
  skip_hole i_data o rounds e j = elim (Bool-cases (o == j)) [
    | inl same ↦
        let z : get_or i_data j 0 ≡ 0 =
          ap (λ i. get_or i_data i 0) (sym ((==_iff o j).0 same)) ∙ e in
        rw z (ground arith)
    | inr other ↦ ground arith
  ]

  skip_cut :
      (i_data : List ℕ) (o rounds : ℕ)
      → o < length i_data
      → (j : ℕ)
      → (if leb (o + 1) j && ltb j (o + 1 + rounds) then 0 else get_or (set i_data o 0) j 0)
        ≡ (if leb o j && ltb j (o + suc rounds) then 0 else get_or i_data j 0)
  skip_cut i_data o rounds lt j = elim (Bool-cases (o == j)) [
    | inl same ↦
        let e : o ≡ j = (==_iff o j).0 same in
        let z : get_or (set i_data o 0) j 0 ≡ 0 =
          ap (λ i. get_or (set i_data o 0) i 0) (sym e) ∙ get_or-set_self i_data o 0 0 lt in
        rw z (ground arith)
    | inr other ↦
        rw (get_or-set_other i_data o j 0 0 (λ e. cc (other, (==_iff o j).1 e))) (ground arith)
  ]

  cut_inside :
      (s : Fs) (i_data : List ℕ) (o : ℕ)
      → o < length i_data
      → InData s i_data
      → InData s (set i_data o 0)
  cut_inside s i_data o lt inside j = elim (Bool-cases (o == j)) [
    | inl same ↦ inl (
        ap (λ i. get_or (set i_data o 0) i 0) (sym ((==_iff o j).0 same))
        ∙ get_or-set_self i_data o 0 0 lt)
    | inr other ↦
        rw (get_or-set_other i_data o j 0 0 (λ e. cc (other, (==_iff o j).1 e))) (inside j)
  ]

  pub free_data-CutOff :
      (rounds o : ℕ) (i_data : List ℕ) (s : Fs)
      → ZmapOk s
      → o + rounds ≤ length i_data
      → InData s i_data
      → (data' : List ℕ) × (s' : Fs) × (free_range ops (release ops 0) rounds (in_inode o) i_data s
          ≡ ok data' s')
        × CutOff s i_data rounds o data' s'
  unfolding free_range held release
  free_data-CutOff zero o i_data s v h inside =
      (i_data, s, refl, (refl, λ j. ground arith, λ n. refl, refl))
  free_data-CutOff (suc rounds) o i_data s v h inside =
      let r = read_pointer-inode s i_data o (omega arith) in
      elim (Bool-cases (get_or i_data o 0 == 0)) [
        | inl e ↦
            let (data', s', run, (len, cells, bits, only)) =
              free_data-CutOff rounds (o + 1) i_data s v (omega arith) inside in
            (
              data',
              s',
              rw (r, e) run,
              (
                len,
                λ j. cells j ∙ skip_hole i_data o rounds ((==_iff (get_or i_data o 0) 0).0 e) j,
                λ n. rw e (bits n),
                only,
              ),
            )
        | inr e ↦
            let z = get_or i_data o 0 in
            let bit = z - s.sb.s_firstdatazone + 1 in
            let area : (s.sb.s_firstdatazone ≤ z) × (z < s.sb.s_nzones) = elim (inside o) [
              | inl zero_there ↦ absurd (cc (e, (==_iff z 0).1 zero_there))
              | inr there ↦ there
            ] in
            let s₁ = unmarked ops s bit in
            let data₁ = set i_data o 0 in
            let v₁ = unmarked-ZmapOk s v bit (omega arith) (omega (arith, v.enough)) in
            let same_len = length-set i_data o 0 in
            let freed : release ops 0 z data₁ s ≡ ok data₁ s₁ =
              rw (free_block-run ops s z v area.0 area.1, release) in
            let (data', s', run, (len, cells, bits, only)) =
              free_data-CutOff rounds (o + 1) data₁ s₁ v₁ (omega (arith, same_len))
                (cut_inside s i_data o (omega arith) inside) in
            (
              data',
              s',
              rw (r, e, write_pointer-inode o 0 i_data s (omega arith), freed) run,
              (
                len ∙ same_len,
                λ j. cells j ∙ skip_cut i_data o rounds (omega arith) j,
                λ n.
                    bits n
                    ∙ rw
                        (
                          held_congr s s₁ data₁ i_data rounds (o + 1) n refl
                              (λ j le. get_or-set_other i_data o j 0 0 (λ x. absurd (omega arith))),
                          bit_at-unmark ops (bits_per_zone s) (w_pos ops s) s.s_zmap bit n
                              (omega (arith, v.enough)),
                          e,
                        )
                        (ground arith),
                only,
              ),
            )
      ]
