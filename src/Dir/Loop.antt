-- ===== src/Dir/Loop.antt =====
-- `for_each`, the loop of src/dir.c: where it ends, and two loops inside one another as one.
use cominix_fs.Prelude.{
  ℕ, zero, suc, ◌+◌, ◌*◌, ◌<◌, ◌≤◌, ◌≡◌, refl, sym, ap, subst, ◌∙◌, Bool, true, false, ◌⊎◌, inl,
  inr, Option, none, some, arith, Bool-cases, Option-cases, ltb, ltb→lt, if◌then◌else◌,
}
use cominix_fs.Dir.{for_each}

module _ {R : Type 0} where
  -- what follows a loop that found nothing
  abbrev pub or_else : Option R → Option R → Option R
  or_else (some r) o = some r
  or_else none o = o

  or_else-none : (o : Option R) → or_else o (for_each 0 0 (λ n. none)) ≡ o
  unfolding for_each
  or_else-none none = refl
  or_else-none (some r) = refl

  for_each_step :
      (rounds i : ℕ) (f : ℕ → Option R)
      → for_each (suc rounds) i f ≡ or_else (f i) (for_each rounds (i + 1) f)
  unfolding for_each
  for_each_step rounds i f = elim (Option-cases (f i)) [
    | inl e ↦ rw (e, for_each)
    | inr (r, e) ↦ rw (e, for_each)
  ]

  pub for_each_one : (i : ℕ) (f : ℕ → Option R) → for_each 1 i f ≡ f i
  unfolding for_each
  for_each_one i f = for_each_step 0 i f ∙ or_else-none (f i)

  pub for_each-none :
      (rounds i : ℕ) (f : ℕ → Option R)
      → ((k : ℕ) → i ≤ k → k < i + rounds → f k ≡ none)
      → for_each rounds i f ≡ none
  unfolding for_each
  for_each-none zero i f h = refl
  for_each-none (suc rounds) i f h =
      rw (for_each_step rounds i f, h i (omega arith) (omega arith))
        (for_each-none rounds (i + 1) f (λ k lo hi. h k (omega arith) (omega arith)))

  -- the first index that gives a result
  pub for_each-some :
      (rounds i j : ℕ) (f : ℕ → Option R) (r : R)
      → i ≤ j
      → j < i + rounds
      → f j ≡ some r
      → ((k : ℕ) → i ≤ k → k < j → f k ≡ none)
      → for_each rounds i f ≡ some r
  unfolding for_each
  for_each-some zero i j f r lo hi e h = absurd (omega arith)
  for_each-some (suc rounds) i j f r lo hi e h = elim (Bool-cases (ltb i j)) [
    | inl later ↦
        let lt : i < j = ground arith in
        rw (for_each_step rounds i f, h i (omega arith) lt)
          (for_each-some rounds (i + 1) j f r (omega arith) (omega arith) e
            (λ k a b. h k (omega arith) b))
    | inr here ↦ let same : i ≡ j = ground arith in rw (for_each_step rounds i f, ap f same ∙ e)
  ]

  -- loops with the same bodies
  pub for_each_congr :
      (rounds i j : ℕ) (f g : ℕ → Option R)
      → ((k : ℕ) → k < rounds → f (i + k) ≡ g (j + k))
      → for_each rounds i f ≡ for_each rounds j g
  unfolding for_each
  for_each_congr zero i j f g h = refl
  for_each_congr (suc rounds) i j f g h =
      let ei : i + 0 ≡ i = omega arith in
      let ej : j + 0 ≡ j = omega arith in
      let first : f i ≡ g j = ap f (sym ei) ∙ h 0 (omega arith) ∙ ap g ej in
      rw (for_each_step rounds i f, for_each_step rounds j g, first)
        (ap (or_else (g j)) (
          for_each_congr rounds (i + 1) (j + 1) f g λ k lt.
            let fi : i + 1 + k ≡ i + suc k = omega arith in
            let gj : j + 1 + k ≡ j + suc k = omega arith in
            ap f fi ∙ h (suc k) (omega arith) ∙ ap g (sym gj)))

  pub for_each-add :
      (m n i : ℕ) (f : ℕ → Option R)
      → for_each (m + n) i f ≡ or_else (for_each m i f) (for_each n (i + m) f)
  unfolding for_each
  for_each-add zero n i f =
      let z : 0 + n ≡ n = omega arith in
      let z' : i ≡ i + 0 = omega arith in ap (λ k. for_each k i f) z ∙ ap (λ k. for_each n k f) z'
  for_each-add (suc m) n i f =
      let s : suc m + n ≡ suc (m + n) = omega arith in
      let s' : i + 1 + m ≡ i + suc m = omega arith in
      rw (s, for_each_step (m + n) i f, for_each_step m i f)
        (elim (Option-cases (f i)) [
          | inl e ↦ rw e (
              for_each-add m n (i + 1) f
              ∙ ap (λ k. or_else (for_each m (i + 1) f) (for_each n k f)) s')
          | inr (r, e) ↦ rw e
        ])

  -- `m` loops of `w` rounds each
  pub for_each-nested :
      (m w i : ℕ) (f : ℕ → Option R)
      → for_each m i (λ n. for_each w 0 (λ k. f (n * w + k))) ≡ for_each (m * w) (i * w) f
  unfolding for_each
  for_each-nested zero w i f = let z : 0 * w ≡ 0 = omega arith in rw z
  for_each-nested (suc m) w i f =
      let s : suc m * w ≡ w + m * w = grind arith in
      let s' : (i + 1) * w ≡ i * w + w = grind arith in
      let inner : for_each w 0 (λ k. f (i * w + k)) ≡ for_each w (i * w) f =
        for_each_congr w 0 (i * w) (λ k. f (i * w + k)) f
          (λ k lt. let z : 0 + k ≡ k = omega arith in ap (λ n. f (i * w + n)) z) in
      rw
        (
          s,
          for_each-add w (m * w) (i * w) f,
          for_each_step m i (λ n. for_each w 0 (λ k. f (n * w + k))),
          inner,
          ← s',
        )
        (elim (Option-cases (for_each w (i * w) f)) [
          | inl e ↦ rw e (for_each-nested m w (i + 1) f)
          | inr (r, e) ↦ rw e
        ])

-- the first index below `count` that passes a test, or that none does
abbrev pub FirstTrue : ℕ → (ℕ → Bool) → Type 0
FirstTrue count b =
    ((j : ℕ) × (j < count) × (b j ≡ true) × ((k : ℕ) → k < j → b k ≡ false))
    ⊎ ((k : ℕ) → k < count → b k ≡ false)

pub first_true : (count : ℕ) (b : ℕ → Bool) → FirstTrue count b
first_true zero b = inr (λ k lt. absurd (omega arith))
first_true (suc count) b = elim (first_true count b) [
  | inl (j, lt, e, before) ↦ inl (j, omega arith, e, before)
  | inr all ↦ elim (Bool-cases (b count)) [
    | inl e ↦ inl (count, omega arith, e, all)
    | inr e ↦ inr (λ k lt. elim (Bool-cases (ltb k count)) [
      | inl below ↦ all k (ltb→lt k count below)
      | inr here ↦ let same : count ≡ k = ground arith in subst (λ n. b n ≡ false) same e
    ])
  ]
]

-- the loop with a test and a result
module _ {R : Type 0} (count : ℕ) (b : ℕ → Bool) (r : ℕ → R) where
  pub for_each_hit :
      (j : ℕ)
      → j < count
      → b j ≡ true
      → ((k : ℕ) → k < j → b k ≡ false)
      → for_each count 0 (λ k. if b k then some (r k) else none) ≡ some (r j)
  for_each_hit j lt e before =
      for_each-some count 0 j (λ k. if b k then some (r k) else none) (r j) (omega arith)
        (omega arith) (rw e) (λ k lo hi. rw (before k hi))

  pub for_each_miss :
      ((k : ℕ) → k < count → b k ≡ false)
      → for_each count 0 (λ k. if b k then some (r k) else none) ≡ none
  for_each_miss all =
      for_each-none count 0 (λ k. if b k then some (r k) else none)
        (λ k lo hi. rw (all k (omega arith)))
