-- ===== src/Dir/Find.antt =====
-- `cominix_find_entry` and `cominix_inode_by_name` of src/dir.c.
use native.Mathlib.Nat.{div-add-mod', mod-lt}
use cominix_fs.Prelude.{
  ℕ, ◌+◌, ◌*◌, ◌/◌, ◌%◌, ◌<◌, ◌≤◌, ◌≡◌, sym, ap, ap₂, ◌∙◌, true, false, ◌⊎◌, inl, inr, Option, none,
  some, List, arith, Bool-cases, ◌==◌, if◌then◌else◌, length, div_of, mod_of,
}
use cominix_fs.Dir.{
  Dir, for_each, inumber, namx, namecompare, find_test, cominix_find_entry, cominix_inode_by_name,
}
use cominix_fs.Dir.Loop.{first_true, for_each_hit, for_each_miss}
use cominix_fs.Dir.Names.{namecompare_congr}
use cominix_fs.Dir.Slots.{
  DirOk, slot_ino, slot_name, hit, place, for_entries-slots, inumber-slot, namx-slot,
}
use cominix_fs.Fs.{SbInfo}

-- the number that the first entry in use with the name has, if there is one among `count`
unfoldable pub lookup : SbInfo → Dir → ℕ → List ℕ → Option ℕ
lookup sbi d count name =
    for_each count 0 (λ k. if hit sbi d name k then some (slot_ino sbi d k) else none)

abbrev pub or_zero : Option ℕ → ℕ
or_zero none = 0
or_zero (some n) = n

module _ (sbi : SbInfo) (d : Dir) (v : DirOk sbi d) (name : List ℕ)
    (short : length name ≤ sbi.s_namelen) where
  pub place_of :
      (n k : ℕ) → k < v.per_page → place sbi d v (n * v.per_page + k) ≡ (n, k * sbi.s_dirsize)
  place_of n k lt =
      ap₂ (λ a b. (a, b * sbi.s_dirsize)) (div_of v.per_page v.page_pos n k lt)
        (mod_of v.per_page v.page_pos n k lt)

  pub inumber-place :
      (j : ℕ) → inumber sbi d (j / v.per_page) (j % v.per_page * sbi.s_dirsize) ≡ slot_ino sbi d j
  inumber-place j =
      inumber-slot sbi d v (j / v.per_page) (j % v.per_page) (mod-lt j v.page_pos)
      ∙ ap (slot_ino sbi d) (div-add-mod' j v.per_page)

  pub namecompare-slot :
      (n k : ℕ)
      → k < v.per_page
      → namecompare sbi.s_namelen name (namx sbi d n (k * sbi.s_dirsize))
        ≡ namecompare sbi.s_namelen name (slot_name sbi d (n * v.per_page + k))
  namecompare-slot n k lt =
      namecompare_congr sbi.s_namelen name _ _ short
        λ i small. namx-slot sbi d v n k i lt (omega (arith, v.fits))

  abbrev test : ℕ → Option (ℕ × ℕ)
  test k = if hit sbi d name k then some (place sbi d v k) else none

  find_test-slot :
      (n k : ℕ)
      → k < v.per_page
      → find_test sbi d name n (k * sbi.s_dirsize) ≡ test (n * v.per_page + k)
  unfolding find_test hit
  find_test-slot n k lt =
      rw (inumber-slot sbi d v n k lt, namecompare-slot n k lt, place_of n k lt)
        (elim (Bool-cases (slot_ino sbi d (n * v.per_page + k) == 0)) [
          | inl e ↦ rw e
          | inr e ↦ rw e
        ])

  find_entry-slots : cominix_find_entry sbi d name ≡ for_each v.count 0 test
  unfolding cominix_find_entry
  find_entry-slots = for_entries-slots sbi d v (find_test sbi d name) test find_test-slot

  -- The first entry in use with the name, or that there is none.
  abbrev pub Finds : Type 0
  Finds =
      ((j : ℕ) × (j < v.count)
        × (hit sbi d name j ≡ true)
        × ((k : ℕ) → k < j → hit sbi d name k ≡ false)
        × (cominix_find_entry sbi d name ≡ some (place sbi d v j))
        × (cominix_inode_by_name sbi d name ≡ slot_ino sbi d j)
        × (lookup sbi d v.count name ≡ some (slot_ino sbi d j)))
      ⊎ (((k : ℕ) → k < v.count → hit sbi d name k ≡ false)
          × (cominix_find_entry sbi d name ≡ none)
          × (cominix_inode_by_name sbi d name ≡ 0)
          × (lookup sbi d v.count name ≡ none))

  pub find_entry-Finds : Finds
  unfolding cominix_inode_by_name lookup
  find_entry-Finds = elim (first_true v.count (hit sbi d name)) [
    | inl (j, lt, e, before) ↦
        let run : cominix_find_entry sbi d name ≡ some (place sbi d v j) =
          find_entry-slots ∙ for_each_hit v.count (hit sbi d name) (place sbi d v) j lt e before in
        inl (
          j,
          lt,
          e,
          before,
          run,
          rw (run, cominix_inode_by_name) (inumber-place j),
          for_each_hit v.count (hit sbi d name) (slot_ino sbi d) j lt e before,
        )
    | inr all ↦
        let run : cominix_find_entry sbi d name ≡ none =
          find_entry-slots ∙ for_each_miss v.count (hit sbi d name) (place sbi d v) all in
        inr (
          all,
          run,
          rw (run, cominix_inode_by_name),
          for_each_miss v.count (hit sbi d name) (slot_ino sbi d) all,
        )
  ]

  pub inode_by_name-lookup : cominix_inode_by_name sbi d name ≡ or_zero (lookup sbi d v.count name)
  inode_by_name-lookup = elim find_entry-Finds [
    | inl (j, lt, e, before, run, by_name, found) ↦ by_name ∙ sym (ap or_zero found)
    | inr (all, run, by_name, found) ↦ by_name ∙ sym (ap or_zero found)
  ]
