-- ===== src/Dir/Dots.antt =====
-- Directories with the entries `.` and `..` only, for `cominix_make_empty` of src/dir.c.
use cominix_fs.Prelude.{
  ℕ, zero, suc, ◌<◌, ◌≤◌, ◌≡◌, ◌≢◌, refl, sym, ap, ◌∙◌, true, false, inl, inr, List, [], ◌∷◌, arith,
  Bool-cases, ◌==◌, ==_iff, length, get_or,
}
use cominix_fs.Dir.{Dir, namecompare, cominix_inode_by_name, cominix_empty_dir}
use cominix_fs.Dir.Unique.{IsUnique, hit_same}
use cominix_fs.Dir.Empty.{dot, dotdot, IsDots, empty_dir-IsDots}
use cominix_fs.Dir.Find.{lookup, or_zero, inode_by_name-lookup}
use cominix_fs.Dir.Loop.{for_each_hit}
use cominix_fs.Dir.Modify.{hit_in_use}
use cominix_fs.Dir.Names.{IsName, namecompare_self, namecompare_other}
use cominix_fs.Dir.Slots.{DirOk, slot_ino, slot_name, hit}
use cominix_fs.Fs.{SbInfo}

dot-IsName : (maxlen : ℕ) → 3 ≤ maxlen → IsName maxlen dot
dot-IsName maxlen three = (omega arith, (omega arith, tt))

dotdot-IsName : (maxlen : ℕ) → 3 ≤ maxlen → IsName maxlen dotdot
dotdot-IsName maxlen three = (omega arith, (omega arith, (omega arith, tt)))

dot_ne : dot ≢ dotdot
dot_ne e = let z : length dot ≡ length dotdot = ap (λ xs. length xs) e in absurd (omega (arith, z))

-- the strings with the 0 that ends them
pub dot_string : (k : ℕ) → get_or (b'.' ∷ 0 ∷ []) k 0 ≡ get_or dot k 0
dot_string zero = refl
dot_string (suc zero) = refl
dot_string (suc (suc k)) = refl

pub dotdot_string : (k : ℕ) → get_or (b'.' ∷ b'.' ∷ 0 ∷ []) k 0 ≡ get_or dotdot k 0
dotdot_string zero = refl
dotdot_string (suc zero) = refl
dotdot_string (suc (suc zero)) = refl
dotdot_string (suc (suc (suc k))) = refl

-- A directory of two entries with the names `.` and `..`.
pub record Dots (sbi : SbInfo) (e : Dir) (own parent : ℕ) : Type 0 where
  pub well : DirOk sbi e
  pub two : well.count ≡ 2
  pub number_0 : slot_ino sbi e 0 ≡ own
  pub number_1 : slot_ino sbi e 1 ≡ parent
  pub name_0 : (k : ℕ) → k < sbi.s_namelen → slot_name sbi e 0 k ≡ get_or dot k 0
  pub name_1 : (k : ℕ) → k < sbi.s_namelen → slot_name sbi e 1 k ≡ get_or dotdot k 0

-- What a directory with only `.` and `..` is as a map.
abbrev pub IsNew : SbInfo → Dir → ℕ → ℕ → Type 0
IsNew sbi e own parent =
    (cominix_inode_by_name sbi e dot ≡ own)
    × (cominix_inode_by_name sbi e dotdot ≡ parent)
    × (cominix_empty_dir sbi e ≡ true)
    × ((v : DirOk sbi e) × IsUnique sbi e v.count)

module _ (sbi : SbInfo) (e : Dir) (own parent : ℕ) (w : Dots sbi e own parent)
    (three : 3 ≤ sbi.s_namelen) (own_positive : own ≢ 0) (parent_positive : parent ≢ 0)
    (is_own : e.i_ino ≡ own) where
  hit_0 : (n : List ℕ) → hit sbi e n 0 ≡ namecompare sbi.s_namelen n (slot_name sbi e 0)
  hit_0 n = hit_in_use sbi e n 0 (λ z. own_positive (sym w.number_0 ∙ z))

  hit_1 : (n : List ℕ) → hit sbi e n 1 ≡ namecompare sbi.s_namelen n (slot_name sbi e 1)
  hit_1 n = hit_in_use sbi e n 1 (λ z. parent_positive (sym w.number_1 ∙ z))

  dot_at_0 : hit sbi e dot 0 ≡ true
  dot_at_0 =
      hit_0 dot
      ∙ namecompare_self sbi.s_namelen dot (dot-IsName sbi.s_namelen three) (slot_name sbi e 0)
          w.name_0

  dotdot_at_1 : hit sbi e dotdot 1 ≡ true
  dotdot_at_1 =
      hit_1 dotdot
      ∙ namecompare_self sbi.s_namelen dotdot (dotdot-IsName sbi.s_namelen three)
          (slot_name sbi e 1) w.name_1

  dotdot_at_0 : hit sbi e dotdot 0 ≡ false
  dotdot_at_0 =
      hit_0 dotdot
      ∙ namecompare_other sbi.s_namelen dot (dot-IsName sbi.s_namelen three) (slot_name sbi e 0)
          w.name_0 dotdot (dotdot-IsName sbi.s_namelen three) dot_ne

  dots-IsUnique : IsUnique sbi e w.well.count
  dots-IsUnique name i j nv li lj hi hj = elim (Bool-cases (i == j)) [
    | inl same ↦ (==_iff i j).0 same
    | inr ne ↦ absurd (elim (Bool-cases (i == 0)) [
      | inl at_0 ↦
          let zi : i ≡ 0 = (==_iff i 0).0 at_0 in
          let zj : j ≡ 1 = ground (arith, w.two) in
          clash (ap (hit sbi e name) (sym zi) ∙ hi) (ap (hit sbi e name) (sym zj) ∙ hj)
      | inr later ↦
          let zi : i ≡ 1 = ground (arith, w.two) in
          let zj : j ≡ 0 = ground (arith, w.two) in
          clash (ap (hit sbi e name) (sym zj) ∙ hj) (ap (hit sbi e name) (sym zi) ∙ hi)
    ])
  ]
    where
      clash : hit sbi e name 0 ≡ true → hit sbi e name 1 ≡ true → ⊥
      clash at_0 at_1 = dot_ne (
          hit_same sbi e dot name 0 (dot-IsName sbi.s_namelen three) nv dot_at_0 at_0
          ∙ hit_same sbi e name dotdot 1 nv (dotdot-IsName sbi.s_namelen three) at_1 dotdot_at_1)

  all-IsDots : (k : ℕ) → k < w.well.count → IsDots sbi e k
  all-IsDots zero lt = inr (inl (dot_at_0, w.number_0 ∙ sym is_own))
  all-IsDots (suc zero) lt = inr (inr dotdot_at_1)
  all-IsDots (suc (suc k)) lt = absurd (omega (arith, w.two))

  pub Dots-IsNew : IsNew sbi e own parent
  unfolding lookup
  Dots-IsNew = (
    inode_by_name-lookup sbi e w.well dot (dot-IsName sbi.s_namelen three).0
        ∙ ap or_zero (
            for_each_hit w.well.count (hit sbi e dot) (slot_ino sbi e) 0 (omega (arith, w.two))
              dot_at_0 (λ k lt. absurd (omega arith)))
        ∙ w.number_0,
    inode_by_name-lookup sbi e w.well dotdot (dotdot-IsName sbi.s_namelen three).0
        ∙ ap or_zero (
            for_each_hit w.well.count (hit sbi e dotdot) (slot_ino sbi e) 1 (omega (arith, w.two))
              dotdot_at_1
              (λ k lt. let z : 0 ≡ k = omega arith in ap (hit sbi e dotdot) (sym z) ∙ dotdot_at_0))
        ∙ w.number_1,
    (empty_dir-IsDots sbi e w.well three).1 all-IsDots,
    (w.well, dots-IsUnique),
  )
