-- ===== src/Dir/Empty.antt =====
-- `cominix_empty_dir` of src/dir.c.
use cominix_fs.Prelude.{
  ℕ, ◌+◌, ◌*◌, ◌<◌, ◌≤◌, ◌≡◌, ◌↔◌, ◌∙◌, Bool, true, false, not, ◌&&◌, ◌⊎◌, inl, inr, none, some,
  List, [], ◌∷◌, arith, lt→ltb, ◌==◌, if◌then◌else◌,
}
use cominix_fs.Dir.{Dir, namx, namecompare, same_bytes, not_empty_test, cominix_empty_dir}
use cominix_fs.Dir.Loop.{first_true, for_each_hit, for_each_miss}
use cominix_fs.Dir.Slots.{
  DirOk, slot_ino, slot_name, hit, for_entries-slots, inumber-slot, namx-slot,
}
use cominix_fs.Fs.{SbInfo}

abbrev pub dot : List ℕ
dot = b'.' ∷ []

abbrev pub dotdot : List ℕ
dotdot = b'.' ∷ b'.' ∷ []

-- An entry that an empty directory may have: not in use, `.` with its own number, or `..`.
abbrev pub IsDots : SbInfo → Dir → ℕ → Type 0
IsDots sbi d k =
    (slot_ino sbi d k ≡ 0)
    ⊎ ((hit sbi d dot k ≡ true) × (slot_ino sbi d k ≡ d.i_ino))
    ⊎ (hit sbi d dotdot k ≡ true)

-- A field of at least 3 bytes holds `.` or `..` by its first 2 or 3 bytes.
module _ (maxlen : ℕ) (three : 3 ≤ maxlen) (name : ℕ → ℕ) where
  namecompare-dot : namecompare maxlen dot name ≡ ((name 1 == 0) && (name 0 == b'.'))
  unfolding namecompare same_bytes
  namecompare-dot = rw (lt→ltb 1 maxlen (omega arith)) (ground arith)

  namecompare-dotdot :
      namecompare maxlen dotdot name ≡ ((name 2 == 0) && (name 1 == b'.') && (name 0 == b'.'))
  unfolding namecompare same_bytes
  namecompare-dotdot = rw (lt→ltb 2 maxlen (omega arith)) (ground arith)

module _ (sbi : SbInfo) (d : Dir) (v : DirOk sbi d) (three : 3 ≤ sbi.s_namelen) where
  abbrev crowded_by : ℕ → (ℕ → ℕ) → Bool
  crowded_by ino name =
      if ino == 0
      then false
      else if not (name 0 == b'.')
      then true
      else if name 1 == 0
      then not (ino == d.i_ino)
      else if not (name 1 == b'.')
      then true
      else not (name 2 == 0)

  abbrev crowded : ℕ → Bool
  crowded k = crowded_by (slot_ino sbi d k) (slot_name sbi d k)

  test-crowded :
      (n k : ℕ)
      → k < v.per_page
      → not_empty_test sbi d n (k * sbi.s_dirsize)
        ≡ (if crowded (n * v.per_page + k) then some tt else none)
  unfolding not_empty_test
  test-crowded n k lt =
      let byte : (i : ℕ)
          → i < 3
          → namx sbi d n (k * sbi.s_dirsize) i ≡ slot_name sbi d (n * v.per_page + k) i =
        λ i small. namx-slot sbi d v n k i lt (omega (arith, v.fits)) in
      rw
        (
          inumber-slot sbi d v n k lt,
          byte 0 (omega arith),
          byte 1 (omega arith),
          byte 2 (omega arith),
        )
        (ground arith)

  crowded-IsDots : (k : ℕ) → crowded k ≡ false → IsDots sbi d k
  unfolding hit
  crowded-IsDots k e = ground (
    arith,
    namecompare-dot sbi.s_namelen three (slot_name sbi d k),
    namecompare-dotdot sbi.s_namelen three (slot_name sbi d k),
  )

  IsDots-crowded : (k : ℕ) → IsDots sbi d k → crowded k ≡ false
  unfolding hit
  IsDots-crowded k h = ground (
    arith,
    namecompare-dot sbi.s_namelen three (slot_name sbi d k),
    namecompare-dotdot sbi.s_namelen three (slot_name sbi d k),
  )

  -- In a well-formed directory with room for names of 3 bytes, `cominix_empty_dir` finds the
  -- directory empty exactly when each entry is not in use, is `.` with the directory's own number,
  -- or is `..`.
  pub empty_dir-IsDots : (cominix_empty_dir sbi d ≡ true) ↔ ((k : ℕ) → k < v.count → IsDots sbi d k)
  unfolding cominix_empty_dir
  empty_dir-IsDots = elim (first_true v.count crowded) [
    | inl (j, lt, e, before) ↦
        let run =
          for_entries-slots sbi d v (not_empty_test sbi d)
            (λ k. if crowded k then some tt else none) test-crowded
          ∙ for_each_hit v.count crowded (λ k. tt) j lt e before in
        (
          rw (run, cominix_empty_dir) (λ z. absurd (cc)),
          λ all. absurd (cc (e, IsDots-crowded j (all j lt))),
        )
    | inr all ↦
        let run =
          for_entries-slots sbi d v (not_empty_test sbi d)
            (λ k. if crowded k then some tt else none) test-crowded
          ∙ for_each_miss v.count crowded (λ k. tt) all in
        (λ e k lt. crowded-IsDots k (all k lt), λ h. rw (run, cominix_empty_dir))
  ]
