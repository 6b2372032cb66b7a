-- ===== src/Itree/Path.antt =====
-- `block_to_path` of src/itree_v2.c.
use native.Mathlib.Nat.{div-add-mod', mod-lt, mod-eq_of_lt, div-lt_iff_lt-mul, mul-le-mul_left}
use cominix_fs.Prelude.{
  ℕ, ◌+◌, ◌-◌, ◌*◌, ◌/◌, ◌%◌, ◌^◌, ◌<◌, ◌≤◌, ◌≡◌, refl, sym, ap, ◌∙◌, inl, inr, List, [], ◌∷◌,
  arith, ltb, lt→leb, lt→ltb, ltb→lt, Bool-cases, pow_pos, pow_add,
}
use cominix_fs.Itree.{pos, block_to_path}

-- The offsets lead through an inode's pointers and blocks of `n` pointers: one of the seven direct
-- pointers, or one of the three others and as many pointers in blocks as it has levels.
abbrev pub IsPath : ℕ → List ℕ → Type 0
IsPath n [] = ⊥
IsPath n (b ∷ []) = b < 7
IsPath n (root ∷ b ∷ []) = (root ≡ 7) × (b < n)
IsPath n (root ∷ a ∷ b ∷ []) = (root ≡ 8) × (a < n) × (b < n)
IsPath n (root ∷ a ∷ b ∷ c ∷ []) = (root ≡ 9) × (a < n) × (b < n) × (c < n)
IsPath n (root ∷ a ∷ b ∷ c ∷ d ∷ more) = ⊥

-- The block of a file that a path leads to, when a block of pointers holds `n` of them.
unfoldable pub block_of_path : ℕ → List ℕ → ℕ
block_of_path n [] = 0
block_of_path n (b ∷ []) = b
block_of_path n (_ ∷ b ∷ []) = 7 + b
block_of_path n (_ ∷ a ∷ b ∷ []) = 7 + n + (a * n + b)
block_of_path n (_ ∷ a ∷ b ∷ c ∷ _) = 7 + n + n * n + ((a * n + b) * n + c)

-- the number of blocks that these pointers reach
abbrev pub reach : ℕ → ℕ
reach n = 7 + n + n * n + n * n * n

-- a direct block is its own path
pub block_to_path_direct :
    (bits maxbytes block : ℕ)
    → block < 7
    → block * 2 ^ bits < maxbytes
    → maxbytes ≤ 2 ^ 64
    → block_to_path bits maxbytes (pos block) ≡ block ∷ []
unfolding block_to_path
block_to_path_direct bits maxbytes block direct lt small =
    let in_u64 : block * 2 ^ bits % 2 ^ 64 ≡ block * 2 ^ bits = mod-eq_of_lt (omega arith) in
    rw (in_u64, lt→leb maxbytes (block * 2 ^ bits) lt, lt→ltb block 7 direct)

-- the two digits of a number to the base `n`
two_digits : (n x : ℕ) → 0 < n → x < n * n → (x / n < n) × (x % n < n) × (x / n * n + x % n ≡ x)
two_digits n x some lt =
    ((div-lt_iff_lt-mul {x = x} {y = n} some).1 lt, mod-lt x some, div-add-mod' x n)

-- what is below 2 ^ 32 fits into an `int`'s bits
fits : (n x : ℕ) → n ≤ 2 ^ 15 → x < n → x % 2 ^ 32 ≡ x
fits n x small lt = mod-eq_of_lt (omega arith)

module _ (bits maxbytes n : ℕ) (some : 0 < n) (small : n ≤ 2 ^ 15)
    (is : 2 ^ (bits - 2) % 2 ^ 32 ≡ n) where
  square_small : n * n % 2 ^ 32 ≡ n * n
  square_small =
      let most : n * n ≤ n * 2 ^ 15 = mul-le-mul_left {m = n} {n = 2 ^ 15} n small in
      mod-eq_of_lt (omega arith)

  block_to_path_digits :
      (block : ℕ)
      → block * 2 ^ bits < maxbytes
      → maxbytes ≤ 2 ^ 64
      → block < reach n
      → IsPath n (block_to_path bits maxbytes (pos block))
        × (block_of_path n (block_to_path bits maxbytes (pos block)) ≡ block)
  unfolding block_of_path block_to_path
  block_to_path_digits block lt limit reached =
      let in_u64 : block * 2 ^ bits % 2 ^ 64 ≡ block * 2 ^ bits = mod-eq_of_lt (omega arith) in
      let single = block - 7 in
      let double = block - 7 - n in
      let triple = block - 7 - n - n * n in
      rw (in_u64, lt→leb maxbytes (block * 2 ^ bits) lt, is, square_small)
        (elim (Bool-cases (ltb block 7)) [
          | inl e₁ ↦ rw e₁ (ltb→lt block 7 e₁, refl)
          | inr e₁ ↦ rw e₁ (elim (Bool-cases (ltb single n)) [
            | inl e₂ ↦
                let one = ltb→lt single n e₂ in
                rw (e₂, fits n single small one) ((refl, one), ground arith)
            | inr e₂ ↦ rw e₂ (elim (Bool-cases (ltb double (n * n))) [
              | inl e₃ ↦
                  let (a, b, whole) = two_digits n double some (ltb→lt double (n * n) e₃) in
                  rw (e₃, fits n (double / n) small a, fits n (double % n) small b)
                    ((refl, a, b), ground (arith, whole))
              | inr e₃ ↦
                  let below : triple < n * n * n = ground arith in
                  let upper : triple / n < n * n =
                    (div-lt_iff_lt-mul {x = triple} {y = n * n} some).1 below in
                  let (a, b, whole) = two_digits n (triple / n) some upper in
                  let c = mod-lt triple some in
                  let all : ((triple / n) / n * n + (triple / n) % n) * n + triple % n ≡ triple =
                    ap (λ d. d * n + triple % n) whole ∙ div-add-mod' triple n in
                  rw
                    (
                      e₃,
                      fits n ((triple / n) / n) small a,
                      fits n ((triple / n) % n) small b,
                      fits n (triple % n) small c,
                    )
                    ((refl, a, b, c), ground (arith, all))
            ])
          ])
        ])

module _ (bits : ℕ) (lo : 2 ≤ bits) (hi : bits ≤ 17) where
  per_block : 2 ^ bits / 4 ≡ 2 ^ (bits - 2)
  per_block =
      let split : 2 ^ (bits - 2 + 2) ≡ 2 ^ (bits - 2) * 4 = pow_add (bits - 2) 2 in
      let same : bits - 2 + 2 ≡ bits = omega arith in omega (arith, split, ap (λ e. 2 ^ e) same)

  per_block_le : 2 ^ (bits - 2) ≤ 2 ^ 15
  per_block_le =
      let split : 2 ^ (bits - 2 + (17 - bits)) ≡ 2 ^ (bits - 2) * 2 ^ (17 - bits) =
        pow_add (bits - 2) (17 - bits) in
      let same : bits - 2 + (17 - bits) ≡ 15 = omega arith in
      let one : 2 ^ (bits - 2) * 1 ≤ 2 ^ (bits - 2) * 2 ^ (17 - bits) =
        mul-le-mul_left {m = 1} {n = 2 ^ (17 - bits)} (2 ^ (bits - 2))
          (omega (arith, pow_pos (17 - bits))) in
      omega (arith, one, split, ap (λ e. 2 ^ e) same)

  -- For blocks of 4 bytes to 128 KB, that is of `n` pointers of 4 bytes, and a block of a file that
  -- begins within the size limit, of at most 2 ^ 64 bytes, and that three levels of pointers reach:
  -- the path of the block is one of the seven direct pointers, or one of the three others followed
  -- by one, two or three offsets below `n`, as many as it has levels; and the path leads to that
  -- block.
  pub block_to_path-IsPath :
      (maxbytes block : ℕ)
      → block * 2 ^ bits < maxbytes
      → maxbytes ≤ 2 ^ 64
      → block < reach (2 ^ bits / 4)
      → IsPath (2 ^ bits / 4) (block_to_path bits maxbytes (pos block))
        × (block_of_path (2 ^ bits / 4) (block_to_path bits maxbytes (pos block)) ≡ block)
  block_to_path-IsPath maxbytes block lt limit reached =
      block_to_path_digits bits maxbytes (2 ^ bits / 4)
        (omega (arith, per_block, pow_pos (bits - 2))) (omega (arith, per_block, per_block_le))
        (mod-eq_of_lt (omega (arith, per_block_le)) ∙ sym per_block) block lt limit reached
