-- ===== src/Disk/Flat.antt =====
-- The device as one array: what a write changes, and what a read returns.
use cominix_fs.Prelude.{
  ℕ, zero, suc, ◌+◌, ◌-◌, ◌*◌, ◌/◌, ◌%◌, ◌<◌, ◌≤◌, ◌≡◌, refl, ap, ap₂, ◌∙◌, ◌&&◌, ◌⊎◌, List, [],
  ◌∷◌, ◌++◌, arith, ◌==◌, ltb, leb, if◌then◌else◌, length, get_or, take, drop, div_of, mod_of,
  div_mod_inj,
}
use cominix_fs.Disk.{Disk, poke, put_bytes, get_bytes, byte_at, flat_write, flat_read}

get_or_above :
    (x : ℕ) (xs : List ℕ) (a c : ℕ)
    → a < c
    → get_or {A = ℕ} (x ∷ xs) (c - a) 0 ≡ get_or xs (c - (a + 1)) 0
get_or_above x xs a c h = let e : c - a ≡ suc (c - (a + 1)) = omega arith in rw e

get_or_at : (x : ℕ) (xs : List ℕ) (a c : ℕ) → a ≡ c → get_or {A = ℕ} (x ∷ xs) (c - a) 0 ≡ x
get_or_at x xs a c h = let e : c - a ≡ 0 = omega arith in rw e

module _ (size : ℕ) (pos : 0 < size) where
  -- inside one block the two views of a write agree
  pub put_bytes-flat :
      (d : Disk) (b o : ℕ) (xs : List ℕ)
      → o + length xs ≤ size
      → put_bytes d b o xs ≡ flat_write size d (b * size + o) xs
  unfolding put_bytes flat_write
  put_bytes-flat d b o [] h = refl
  put_bytes-flat d b o (x ∷ xs) h =
      rw (div_of size pos b o (omega arith), mod_of size pos b o (omega arith))
        (put_bytes-flat (poke d b o x) b (o + 1) xs (omega arith)
          ∙ ap (λ a. flat_write size (poke d b o x) a xs) (omega arith))

  pub get_bytes-flat :
      (d : Disk) (b o n : ℕ) → o + n ≤ size → get_bytes d b o n ≡ flat_read size d (b * size + o) n
  unfolding get_bytes flat_read byte_at
  get_bytes-flat d b o zero h = refl
  get_bytes-flat d b o (suc n) h =
      rw (div_of size pos b o (omega arith), mod_of size pos b o (omega arith))
        (ap (λ ys. d b o ∷ ys)
          (get_bytes-flat d b (o + 1) n (omega arith)
            ∙ ap (λ a. flat_read size d a n) (omega arith)))

  byte_at-poke :
      (d : Disk) (a x c : ℕ)
      → byte_at size (poke d (a / size) (a % size) x) c ≡ (if a == c then x else byte_at size d c)
  unfolding byte_at poke
  byte_at-poke d a x c = ground (arith, div_mod_inj size pos a c)

  -- a write changes exactly the bytes that it covers
  pub byte_at-flat_write :
      (d : Disk) (a : ℕ) (xs : List ℕ) (c : ℕ)
      → byte_at size (flat_write size d a xs) c
        ≡ (if leb a c && ltb c (a + length xs) then get_or xs (c - a) 0 else byte_at size d c)
  unfolding flat_write
  byte_at-flat_write d a [] c = ground arith
  byte_at-flat_write d a (x ∷ xs) c =
      rw (byte_at-flat_write (poke d (a / size) (a % size) x) (a + 1) xs c, byte_at-poke d a x c)
        (ground (arith, get_or_above x xs a c, get_or_at x xs a c))

pub flat_write-append :
    (size : ℕ) (d : Disk) (a : ℕ) (xs ys : List ℕ)
    → flat_write size d a (xs ++ ys) ≡ flat_write size (flat_write size d a xs) (a + length xs) ys
unfolding flat_write
flat_write-append size d a [] ys = ap (λ b. flat_write size d b ys) (omega arith)
flat_write-append size d a (x ∷ xs) ys =
    flat_write-append size (poke d (a / size) (a % size) x) (a + 1) xs ys
    ∙ ap (λ b. flat_write size (flat_write size (poke d (a / size) (a % size) x) (a + 1) xs) b ys)
        (omega arith)

pub flat_read-add :
    (size : ℕ) (d : Disk) (a m n : ℕ)
    → flat_read size d a (m + n) ≡ flat_read size d a m ++ flat_read size d (a + m) n
unfolding flat_read
flat_read-add size d a zero n =
    let e : 0 + n ≡ n = omega arith in let e' : a + 0 ≡ a = omega arith in rw (e, e')
flat_read-add size d a (suc m) n =
    let e : suc m + n ≡ suc (m + n) = omega arith in
    let e' : a + suc m ≡ a + 1 + m = omega arith in
    rw (e, e') (ap (λ ys. byte_at size d a ∷ ys) (flat_read-add size d (a + 1) m n))

pub length-flat_read : (size : ℕ) (d : Disk) (a n : ℕ) → length (flat_read size d a n) ≡ n
unfolding flat_read
length-flat_read size d a zero = refl
length-flat_read size d a (suc n) = ap suc (length-flat_read size d (a + 1) n)

-- reads depend only on the bytes in their range
pub flat_read_congr :
    (size : ℕ) (d e : Disk) (a n : ℕ)
    → ((c : ℕ) → a ≤ c → c < a + n → byte_at size d c ≡ byte_at size e c)
    → flat_read size d a n ≡ flat_read size e a n
unfolding flat_read
flat_read_congr size d e a zero h = refl
flat_read_congr size d e a (suc n) h =
    ap₂ (λ y ys. y ∷ ys) (h a (omega arith) (omega arith))
      (flat_read_congr size d e (a + 1) n λ c lo hi. h c (omega arith) (omega arith))

-- a list read off its positions
flat_read_of :
    (size : ℕ) (d : Disk) (a : ℕ) (xs : List ℕ)
    → ((i : ℕ) → i < length xs → byte_at size d (a + i) ≡ get_or xs i 0)
    → flat_read size d a (length xs) ≡ xs
unfolding flat_read
flat_read_of size d a [] h = refl
flat_read_of size d a (x ∷ xs) h =
    let e : a + 0 ≡ a = omega arith in
    ap₂ (λ y ys. y ∷ ys) (rw e at (h 0 (omega arith)))
      (flat_read_of size d (a + 1) xs
        λ i hi. let e' : a + 1 + i ≡ a + suc i = omega arith in rw e' (h (suc i) (omega arith)))

module _ (size : ℕ) (pos : 0 < size) where
  -- what was written is read back
  pub flat_read-flat_write :
      (d : Disk) (a : ℕ) (xs : List ℕ) → flat_read size (flat_write size d a xs) a (length xs) ≡ xs
  flat_read-flat_write d a xs = flat_read_of size (flat_write size d a xs) a xs λ i h.
      rw (byte_at-flat_write size pos d a xs (a + i))
        (let e : a + i - a ≡ i = omega arith in rw e (ground arith))

  -- a read that does not meet a write sees through it
  pub flat_read-flat_write_apart :
      (d : Disk) (a : ℕ) (xs : List ℕ) (c n : ℕ)
      → (c + n ≤ a) ⊎ (a + length xs ≤ c)
      → flat_read size (flat_write size d a xs) c n ≡ flat_read size d c n
  flat_read-flat_write_apart d a xs c n apart =
      flat_read_congr size (flat_write size d a xs) d c n
        λ k lo hi. rw (byte_at-flat_write size pos d a xs k) (ground arith)

flat_read-take :
    (size : ℕ) (d : Disk) (a m n : ℕ) → n ≤ m → flat_read size d a n ≡ take n (flat_read size d a m)
unfolding flat_read
flat_read-take size d a m zero h = refl
flat_read-take size d a zero (suc n) h = absurd (omega arith)
flat_read-take size d a (suc m) (suc n) h =
    ap (λ ys. byte_at size d a ∷ ys) (flat_read-take size d (a + 1) m n (omega arith))

-- a field of `n` bytes at offset `k` of a structure of `m` bytes
pub flat_read_part :
    (size : ℕ) (d : Disk) (a m k n : ℕ)
    → k + n ≤ m
    → flat_read size d (a + k) n ≡ take n (drop k (flat_read size d a m))
unfolding flat_read
flat_read_part size d a m zero n h =
    let e : a + 0 ≡ a = omega arith in rw e (flat_read-take size d a m n (omega arith))
flat_read_part size d a zero (suc k) n h = absurd (omega arith)
flat_read_part size d a (suc m) (suc k) n h =
    let e : a + suc k ≡ a + 1 + k = omega arith in
    rw e (flat_read_part size d (a + 1) m k n (omega arith))

module _ (size : ℕ) (pos : 0 < size) where
  pub byte_at-flat_write_apart :
      (d : Disk) (a : ℕ) (xs : List ℕ) (c : ℕ)
      → (c < a) ⊎ (a + length xs ≤ c)
      → byte_at size (flat_write size d a xs) c ≡ byte_at size d c
  byte_at-flat_write_apart d a xs c apart = rw (byte_at-flat_write size pos d a xs c) (ground arith)
