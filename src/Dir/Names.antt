-- ===== src/Dir/Names.antt =====
-- `namecompare` of src/dir.c, on names that are stored with zeroes behind them.
use cominix_fs.Prelude.{
  ℕ, zero, suc, ◌+◌, ◌<◌, ◌≤◌, ◌≡◌, ◌≢◌, refl, sym, ap, ap₂, ◌∙◌, true, false, ◌&&◌, inl, inr, List,
  [], ◌∷◌, arith, Bool-cases, ltb, ltb→lt, ◌==◌, length, get_or,
}
use cominix_fs.Dir.{same_bytes, namecompare}

-- no byte of the name is 0
abbrev pub NoZero : List ℕ → Type 0
NoZero [] = Unit
NoZero (c ∷ cs) = (0 < c) × NoZero cs

-- a name of at most `maxlen` bytes, none of them 0
abbrev pub IsName : ℕ → List ℕ → Type 0
IsName maxlen name = (length name ≤ maxlen) × NoZero name

get_or-pos : (name : List ℕ) (k : ℕ) → NoZero name → k < length name → 0 < get_or name k 0
get_or-pos [] k z h = absurd (omega arith)
get_or-pos (c ∷ cs) zero (p, z) h = p
get_or-pos (c ∷ cs) (suc k) (p, z) h = get_or-pos cs k z (omega arith)

pub get_or_past : (name : List ℕ) (k : ℕ) → length name ≤ k → get_or name k 0 ≡ 0
get_or_past [] k h = refl
get_or_past (c ∷ cs) zero h = absurd (omega arith)
get_or_past (c ∷ cs) (suc k) h = get_or_past cs k (omega arith)

-- lists of one length with the same elements
list_ext :
    (a b : List ℕ)
    → length a ≡ length b
    → ((k : ℕ) → k < length a → get_or a k 0 ≡ get_or b k 0)
    → a ≡ b
list_ext [] [] e h = refl
list_ext [] (y ∷ b) e h = absurd (omega arith)
list_ext (x ∷ a) [] e h = absurd (omega arith)
list_ext (x ∷ a) (y ∷ b) e h =
    ap₂ (λ c cs. c ∷ cs) (h 0 (omega arith))
      (list_ext a b (omega arith) λ k lt. h (suc k) (omega arith))

same_bytes-true :
    (name : List ℕ) (buffer : ℕ → ℕ) (i : ℕ)
    → ((k : ℕ) → k < length name → get_or name k 0 ≡ buffer (i + k))
    → same_bytes name buffer i ≡ true
unfolding same_bytes
same_bytes-true [] buffer i h = refl
same_bytes-true (c ∷ cs) buffer i h =
    let z : i + 0 ≡ i = omega arith in
    let first : c ≡ buffer i = h 0 (omega arith) ∙ ap buffer z in
    let rest = same_bytes-true cs buffer (i + 1) λ k lt.
      let s : i + suc k ≡ i + 1 + k = omega arith in h (suc k) (omega arith) ∙ ap buffer s in
    ground (arith, rest)

same_bytes-get :
    (name : List ℕ) (buffer : ℕ → ℕ) (i k : ℕ)
    → same_bytes name buffer i ≡ true
    → k < length name
    → get_or name k 0 ≡ buffer (i + k)
unfolding same_bytes
same_bytes-get [] buffer i k h lt = absurd (omega arith)
same_bytes-get (c ∷ cs) buffer i zero h lt =
    let z : i ≡ i + 0 = omega arith in let e : c ≡ buffer i = ground arith in e ∙ ap buffer z
same_bytes-get (c ∷ cs) buffer i (suc k) h lt =
    let s : i + 1 + k ≡ i + suc k = omega arith in
    let rest : same_bytes cs buffer (i + 1) ≡ true = ground arith in
    same_bytes-get cs buffer (i + 1) k rest (omega arith) ∙ ap buffer s

same_bytes_congr :
    (name : List ℕ) (b c : ℕ → ℕ) (i : ℕ)
    → ((k : ℕ) → k < i + length name → b k ≡ c k)
    → same_bytes name b i ≡ same_bytes name c i
unfolding same_bytes
same_bytes_congr [] b c i h = refl
same_bytes_congr (x ∷ xs) b c i h =
    ap₂ (λ y z. (x == y) && z) (h i (omega arith))
      (same_bytes_congr xs b c (i + 1) λ k lt. h k (omega arith))

-- only the bytes of the field count
pub namecompare_congr :
    (maxlen : ℕ) (name : List ℕ) (b c : ℕ → ℕ)
    → length name ≤ maxlen
    → ((k : ℕ) → k < maxlen → b k ≡ c k)
    → namecompare maxlen name b ≡ namecompare maxlen name c
unfolding namecompare
namecompare_congr maxlen name b c le h =
    let rest = same_bytes_congr name b c 0 (λ k lt. h k (omega arith)) in
    elim (Bool-cases (ltb (length name) maxlen)) [
      | inl lt ↦ rw (lt, h (length name) (ltb→lt _ _ lt), rest)
      | inr ge ↦ rw (ge, rest)
    ]

-- one field holds at most one name
not_longer :
    (maxlen : ℕ) (a b : List ℕ)
    → IsName maxlen a
    → IsName maxlen b
    → (buffer : ℕ → ℕ) → namecompare maxlen a buffer ≡ true
    → namecompare maxlen b buffer ≡ true
    → length b ≤ length a
unfolding namecompare
not_longer maxlen a b v w buffer h h' = elim (Bool-cases (ltb (length a) (length b))) [
  | inl e ↦
      let lt : length a < length b = ltb→lt _ _ e in
      let z : 0 + length a ≡ length a = omega arith in
      let end : buffer (length a) ≡ 0 = ground (arith, w.0) in
      let same : same_bytes b buffer 0 ≡ true = ground arith in
      absurd (
        omega (
          arith,
          get_or-pos b (length a) w.1 lt,
          same_bytes-get b buffer 0 (length a) same lt ∙ ap buffer z,
          end,
        ))
  | inr e ↦ ground arith
]

pub namecompare_unique :
    (maxlen : ℕ) (a b : List ℕ)
    → IsName maxlen a
    → IsName maxlen b
    → (buffer : ℕ → ℕ) → namecompare maxlen a buffer ≡ true
    → namecompare maxlen b buffer ≡ true
    → a ≡ b
unfolding namecompare
namecompare_unique maxlen a b v w buffer h h' =
    let same_a : same_bytes a buffer 0 ≡ true = ground arith in
    let same_b : same_bytes b buffer 0 ≡ true = ground arith in
    let le = not_longer maxlen a b v w buffer h h' in
    let ge = not_longer maxlen b a w v buffer h' h in
    list_ext a b (omega arith) λ k lt.
      same_bytes-get a buffer 0 k same_a lt ∙ sym (same_bytes-get b buffer 0 k same_b (omega arith))

module _ (maxlen : ℕ) (name : List ℕ) (v : IsName maxlen name) (buffer : ℕ → ℕ)
    (stored : (k : ℕ) → k < maxlen → buffer k ≡ get_or name k 0) where
  -- a stored name is found
  pub namecompare_self : namecompare maxlen name buffer ≡ true
  unfolding namecompare
  namecompare_self =
      let same = same_bytes-true name buffer 0 λ k lt.
        let z : 0 + k ≡ k = omega arith in sym (ap buffer z ∙ stored k (omega (arith, v.0))) in
      elim (Bool-cases (ltb (length name) maxlen)) [
        | inl lt ↦
            let end : buffer (length name) ≡ 0 =
              stored (length name) (ltb→lt _ _ lt) ∙ get_or_past name (length name) (omega arith) in
            rw (lt, end) same
        | inr ge ↦ rw ge same
      ]

  -- and no other name is found in its place
  pub namecompare_other :
      (other : List ℕ)
      → IsName maxlen other
      → name ≢ other
      → namecompare maxlen other buffer ≡ false
  namecompare_other other w ne = elim (Bool-cases (namecompare maxlen other buffer)) [
    | inl e ↦ absurd (ne (namecompare_unique maxlen name other v w buffer namecompare_self e))
    | inr e ↦ e
  ]
