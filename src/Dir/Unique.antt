-- ===== src/Dir/Unique.antt =====
-- A directory of src/dir.c as a map from names to numbers.
use cominix_fs.Prelude.{
  ℕ, ◌<◌, ◌≡◌, ◌≢◌, refl, ap, ap₂, Bool, true, false, inl, inr, List, [], ◌∷◌, ◌&&◌, arith,
  Bool-cases, ◌==◌, ==_self, if◌then◌else◌,
}
use cominix_fs.Dir.{Dir, cominix_inode_by_name}
use cominix_fs.Dir.Names.{IsName, namecompare_unique}
use cominix_fs.Dir.Slots.{DirOk, slot_ino, slot_name, hit}
use cominix_fs.Fs.{SbInfo}

-- no two entries in use have the same name
abbrev pub IsUnique : SbInfo → Dir → ℕ → Type 0
IsUnique sbi d count =
    (name : List ℕ) (i j : ℕ)
    → IsName sbi.s_namelen name
    → i < count
    → j < count
    → hit sbi d name i ≡ true
    → hit sbi d name j ≡ true
    → i ≡ j

unfoldable pub same_name : List ℕ → List ℕ → Bool
same_name [] [] = true
same_name [] (y ∷ ys) = false
same_name (x ∷ xs) [] = false
same_name (x ∷ xs) (y ∷ ys) = (x == y) && same_name xs ys

pub same_name-eq : (a b : List ℕ) → same_name a b ≡ true → a ≡ b
unfolding same_name
same_name-eq [] [] e = refl
same_name-eq [] (y ∷ ys) e = absurd (cc)
same_name-eq (x ∷ xs) [] e = absurd (cc)
same_name-eq (x ∷ xs) (y ∷ ys) e =
    let first : x ≡ y = ground arith in
    let rest : same_name xs ys ≡ true = ground arith in
    ap₂ (λ c cs. c ∷ cs) first (same_name-eq xs ys rest)

pub same_name_self : (a : List ℕ) → same_name a a ≡ true
unfolding same_name
same_name_self [] = refl
same_name_self (x ∷ xs) = rw (==_self x) (same_name_self xs)

pub same_name-ne : (a b : List ℕ) → same_name a b ≡ false → a ≢ b
same_name-ne a b e z = cc (same_name_self a, ap (same_name a) z, e)

-- two names for one entry are the same
pub hit_same :
    (sbi : SbInfo) (d : Dir) (a b : List ℕ) (j : ℕ)
    → IsName sbi.s_namelen a
    → IsName sbi.s_namelen b
    → hit sbi d a j ≡ true
    → hit sbi d b j ≡ true
    → a ≡ b
unfolding hit
hit_same sbi d a b j v w p q = elim (Bool-cases (slot_ino sbi d j == 0)) [
  | inl e ↦ absurd (cc)
  | inr e ↦ namecompare_unique sbi.s_namelen a b v w (slot_name sbi d j) (rw e at p) (rw e at q)
]

pub hit_other :
    (sbi : SbInfo) (d : Dir) (a b : List ℕ) (j : ℕ)
    → IsName sbi.s_namelen a
    → IsName sbi.s_namelen b
    → a ≢ b
    → hit sbi d a j ≡ true
    → hit sbi d b j ≡ false
hit_other sbi d a b j v w ne p = elim (Bool-cases (hit sbi d b j)) [
  | inl q ↦ absurd (ne (hit_same sbi d a b j v w p q))
  | inr q ↦ q
]

-- As a map from names to numbers, `d'` is `d` with `name` leading to `ino` (to nothing where that is
-- 0), here for the name `other`; and it is well formed again.
abbrev pub Rebinds : SbInfo → Dir → Dir → List ℕ → ℕ → List ℕ → Type 0
Rebinds sbi d e name ino other =
    (cominix_inode_by_name sbi e other
      ≡ (if same_name name other then ino else cominix_inode_by_name sbi d other))
    × ((v : DirOk sbi e) × IsUnique sbi e v.count)
