-- ===== src/Chunk/Storage.antt =====
-- `load_blockoff`, and the loops that write and read runs of bytes across block boundaries.
use Prim.Native.Nat.{min}
use native.Mathlib.Nat.{div-add-mod', mod-lt, mod-eq_of_lt}
use cominix_fs.Prelude.{
  ℕ, zero, suc, ◌+◌, ◌-◌, ◌*◌, ◌/◌, ◌%◌, ◌<◌, ◌≤◌, ◌≡◌, refl, sym, ap, ◌∙◌, Bool, true, ◌⊎◌, inl,
  inr, none, some, List, [], ◌∷◌, ◌++◌, arith, ==_ne, le→ltb, le→leb, ◌==◌, Bool-cases, length,
  take, drop, replicate, length-take, length-drop, length-replicate, append-nil, pow_pos,
}
use cominix_fs.Disk.{Disk, flat_read, flat_write}
use cominix_fs.Disk.Flat.{flat_write-append, flat_read-add}
use cominix_fs.Fs.{Fs, s_blocksize, ok, at, with_disk}
use cominix_fs.Fs.Buffer.{load_bytes-flat, store_bytes-flat}
use cominix_fs.Fs.Device.{Readable, block_of_addr, block-lt, block_fits, sb_bread-ok}
use cominix_fs.Chunk.{
  Loaded, Source, load_blockoff, get_next_block, copy_in, advance, write_blocks, write_data_storage,
  read_blocks, read_data_storage,
}

abbrev pub loaded : Fs → ℕ → Loaded
loaded s off = record {
  ptr = at (off / s_blocksize s) (off % s_blocksize s);
  bytes_left = s_blocksize s - off % s_blocksize s;
}

pub load_blockoff-ok :
    (s : Fs) (limit off : ℕ)
    → Readable s limit
    → 0 < off
    → off < limit
    → load_blockoff off s ≡ ok (loaded s off) s
unfolding load_blockoff
load_blockoff-ok s limit off dev lo hi = rw (
  ==_ne off 0 (λ e. omega arith),
  mod-eq_of_lt (block_fits dev off hi),
  sb_bread-ok s _ (dev.blocks _ (block_of_addr dev off hi)),
  le→ltb 30 s.s_blocksize_bits dev.bits_hi,
)

get_next_block-ok :
    (s : Fs) (limit b : ℕ)
    → Readable s limit
    → (b + 1) * s_blocksize s < limit
    → get_next_block b s ≡ ok (b + 1) s
unfolding get_next_block
get_next_block-ok s limit b dev h =
    rw (mod-eq_of_lt (block-lt dev (b + 1) h), sb_bread-ok s _ (dev.blocks (b + 1) h))

-- the next `n` bytes at the cursor
unfoldable pub bytes_of : Source → ℕ → List ℕ
bytes_of none n = replicate n 0
bytes_of (some xs) n = take n xs

-- the caller's data has `n` bytes left
abbrev pub Covers : Source → ℕ → Type 0
Covers none n = Unit
Covers (some xs) n = n ≤ length xs

length-bytes_of : (c : Source) (n : ℕ) → Covers c n → length (bytes_of c n) ≡ n
unfolding bytes_of
length-bytes_of none n h = length-replicate n 0
length-bytes_of (some xs) n h = omega (arith, length-take n xs)

Covers-advance : (c : Source) (w n : ℕ) → w ≤ n → Covers c n → Covers (advance c w) (n - w)
unfolding advance
Covers-advance none w n h v = tt
Covers-advance (some xs) w n h v = omega (arith, length-drop w xs)

Covers-le : (c : Source) (w n : ℕ) → w ≤ n → Covers c n → Covers c w
Covers-le none w n h v = tt
Covers-le (some xs) w n h v = omega arith

replicate-split :
    (w n : ℕ) → w ≤ n → replicate {A = ℕ} n 0 ≡ replicate {A = ℕ} w 0 ++ replicate {A = ℕ} (n - w) 0
replicate-split zero n h = let e : n - 0 ≡ n = omega arith in rw e
replicate-split (suc w) zero h = absurd (omega arith)
replicate-split (suc w) (suc n) h =
    let e : suc n - suc w ≡ n - w = omega arith in
    rw e (ap (λ ys. 0 ∷ ys) (replicate-split w n (omega arith)))

take-nil : (n : ℕ) → take {A = ℕ} n [] ≡ []
take-nil zero = refl
take-nil (suc n) = refl

take-split : (w n : ℕ) (xs : List ℕ) → w ≤ n → take n xs ≡ take w xs ++ take (n - w) (drop w xs)
take-split zero n xs h = let e : n - 0 ≡ n = omega arith in rw e
take-split (suc w) zero xs h = absurd (omega arith)
take-split (suc w) (suc n) [] h = sym (take-nil (suc n - suc w))
take-split (suc w) (suc n) (x ∷ xs) h =
    let e : suc n - suc w ≡ n - w = omega arith in
    rw e (ap (λ ys. x ∷ ys) (take-split w n xs (omega arith)))

bytes_of-split :
    (c : Source) (w n : ℕ) → w ≤ n → bytes_of c n ≡ bytes_of c w ++ bytes_of (advance c w) (n - w)
unfolding bytes_of advance
bytes_of-split none w n h = replicate-split w n h
bytes_of-split (some xs) w n h = take-split w n xs h

copy_in-flat :
    (s : Fs) (b o : ℕ) (c : Source) (n : ℕ)
    → o + n ≤ s_blocksize s
    → Covers c n
    → copy_in (at b o) c n s
      ≡ ok tt
          (with_disk s (flat_write (s_blocksize s) s.disk (b * s_blocksize s + o) (bytes_of c n)))
unfolding copy_in bytes_of
copy_in-flat s b o none n h v = store_bytes-flat s b o (replicate n 0) (rw length-replicate h)
copy_in-flat s b o (some xs) n h v =
    rw (le→leb n (length xs) v)
      (store_bytes-flat s b o (take n xs) (omega (arith, length-take n xs)))

bytes_of-zero : (c : Source) → bytes_of c 0 ≡ []
unfolding bytes_of
bytes_of-zero none = refl
bytes_of-zero (some xs) = refl

-- a write in two parts, the second empty or right behind the first
write_split :
    (size : ℕ) (d : Disk) (a a' : ℕ) (c : Source) (w n : ℕ)
    → w ≤ n
    → Covers c n
    → (a' ≡ a + w) ⊎ (n ≡ w)
    → flat_write size d a (bytes_of c n)
      ≡ flat_write size (flat_write size d a (bytes_of c w)) a' (bytes_of (advance c w) (n - w))
unfolding flat_write
write_split size d a a' c w n h v (inl e) =
    rw (bytes_of-split c w n h, flat_write-append, length-bytes_of c w (Covers-le c w n h v), e)
write_split size d a a' c w n h v (inr e) =
    let z : n - w ≡ 0 = omega arith in rw (z, bytes_of-zero, e)

write_blocks-flat :
    (fuel : ℕ) (s : Fs) (limit b : ℕ) (c : Source) (n : ℕ)
    → Readable s limit
    → (0 < n → (b + 1) * s_blocksize s + n ≤ limit)
    → n < fuel
    → Covers c n
    → write_blocks fuel b c n s
      ≡ ok tt
          (with_disk s (flat_write (s_blocksize s) s.disk ((b + 1) * s_blocksize s) (bytes_of c n)))
unfolding write_blocks flat_write
write_blocks-flat zero s limit b c n dev fits enough v = absurd (omega arith)
write_blocks-flat (suc fuel) s limit b c n dev fits enough v = elim (Bool-cases (n == 0)) [
  | inl e ↦ let z : n ≡ 0 = ground arith in rw (z, bytes_of-zero)
  | inr e ↦
      let size = s_blocksize s in
      let pos : 0 < n = ground arith in
      let w = min size n in
      let big : 0 < size = pow_pos s.s_blocksize_bits in
      let z : (b + 1) * size + 0 ≡ (b + 1) * size = omega arith in
      let d = flat_write size s.disk ((b + 1) * size) (bytes_of c w) in
      rw
        (
          e,
          get_next_block-ok s limit b dev (omega (arith, fits pos)),
          copy_in-flat s (b + 1) 0 c w (omega arith) (Covers-le c w n (omega arith) v),
          z,
        )
        (write_blocks-flat fuel (with_disk s d) limit (b + 1) (advance c w) (n - w) dev
            (λ more. omega (arith, fits pos)) (omega arith) (Covers-advance c w n (omega arith) v)
          ∙ ap (λ d'. ok tt (with_disk s d'))
              (sym (
                write_split size s.disk ((b + 1) * size) ((b + 1 + 1) * size) c w n (omega arith) v
                  (ground arith))))
]

-- On a device that can be read below a limit, writing `n` bytes, or zeroes, from a positive address
-- below the limit on, to an end not above the limit, and with at least `n` bytes given, writes them
-- to that range of the device seen as one array, and changes nothing else.
pub write_data_storage-flat :
    (s : Fs) (limit storage : ℕ) (c : Source) (n : ℕ)
    → Readable s limit
    → 0 < storage
    → storage < limit
    → storage + n ≤ limit
    → Covers c n
    → write_data_storage storage c n s
      ≡ ok tt (with_disk s (flat_write (s_blocksize s) s.disk storage (bytes_of c n)))
unfolding write_data_storage
write_data_storage-flat s limit storage c n dev lo hi fits v =
    let size = s_blocksize s in
    let big : 0 < size = pow_pos s.s_blocksize_bits in
    let b = storage / size in
    let o = storage % size in
    let inside : o < size = mod-lt storage big in
    let z : b * size + o ≡ storage = div-add-mod' storage size in
    let w = min (size - o) n in
    let d = flat_write size s.disk storage (bytes_of c w) in
    rw
      (
        load_blockoff-ok s limit storage dev lo hi,
        copy_in-flat s b o c w (omega arith) (Covers-le c w n (omega arith) v),
        z,
      )
      (write_blocks-flat (suc n) (with_disk s d) limit b (advance c w) (n - w) dev
          (λ more. omega arith) (omega arith) (Covers-advance c w n (omega arith) v)
        ∙ ap (λ d'. ok tt (with_disk s d'))
            (sym (
              write_split size s.disk storage ((b + 1) * size) c w n (omega arith) v
                (ground arith))))

-- The user's buffer takes every run of bytes that lies in its first `total`.
abbrev pub Writable : (ℕ → ℕ → Bool) → ℕ → Type 0
Writable copy_to_user total = (c n : ℕ) → c + n ≤ total → copy_to_user c n ≡ true

module _ (copy_to_user : ℕ → ℕ → Bool) where
  -- a read in two parts, the second empty or right behind the first
  read_split :
      (size : ℕ) (d : Disk) (a a' w n : ℕ)
      → w ≤ n
      → (a' ≡ a + w) ⊎ (n ≡ w)
      → flat_read size d a w ++ flat_read size d a' (n - w) ≡ flat_read size d a n
  unfolding flat_read
  read_split size d a a' w n h (inl e) =
      rw (e, ← flat_read-add) (ap (λ k. flat_read size d a k) (omega arith))
  read_split size d a a' w n h (inr e) = let z : n - w ≡ 0 = omega arith in rw (z, append-nil, e)

  read_blocks-flat :
      (fuel : ℕ) (s : Fs) (limit b cursor n total : ℕ)
      → Readable s limit
      → Writable copy_to_user total
      → cursor + n ≤ total
      → (0 < n → (b + 1) * s_blocksize s + n ≤ limit)
      → n < fuel
      → read_blocks copy_to_user fuel b cursor n s
        ≡ ok (flat_read (s_blocksize s) s.disk ((b + 1) * s_blocksize s) n) s
  unfolding read_blocks flat_read
  read_blocks-flat zero s limit b cursor n total dev user room fits enough = absurd (omega arith)
  read_blocks-flat (suc fuel) s limit b cursor n total dev user room fits enough =
      elim (Bool-cases (n == 0)) [
        | inl e ↦ let z : n ≡ 0 = ground arith in rw z
        | inr e ↦
            let size = s_blocksize s in
            let pos : 0 < n = ground arith in
            let w = min size n in
            let big : 0 < size = pow_pos s.s_blocksize_bits in
            let z : (b + 1) * size + 0 ≡ (b + 1) * size = omega arith in
            rw
              (
                e,
                get_next_block-ok s limit b dev (omega (arith, fits pos)),
                load_bytes-flat s (b + 1) 0 w (omega arith),
                z,
                user cursor w (omega arith),
                read_blocks-flat fuel s limit (b + 1) (cursor + w) (n - w) total dev user
                    (omega arith) (λ more. omega (arith, fits pos)) (omega arith),
              )
              (ap (λ xs. ok xs s)
                (read_split size s.disk ((b + 1) * size) ((b + 1 + 1) * size) w n (omega arith)
                  (ground arith)))
      ]

  -- On a device that can be read below a limit, reading `n` bytes from a positive address below the
  -- limit on, to an end not above the limit, into a user's buffer that can take them gives the
  -- bytes of that range of the device seen as one array, and changes nothing.
  pub read_data_storage-flat :
      (s : Fs) (limit storage n : ℕ)
      → Readable s limit
      → Writable copy_to_user n
      → 0 < storage
      → storage < limit
      → storage + n ≤ limit
      → read_data_storage copy_to_user storage n s
        ≡ ok (flat_read (s_blocksize s) s.disk storage n) s
  unfolding read_data_storage
  read_data_storage-flat s limit storage n dev user lo hi fits =
      let size = s_blocksize s in
      let big : 0 < size = pow_pos s.s_blocksize_bits in
      let b = storage / size in
      let o = storage % size in
      let inside : o < size = mod-lt storage big in
      let z : b * size + o ≡ storage = div-add-mod' storage size in
      let w = min (size - o) n in
      rw
        (
          load_blockoff-ok s limit storage dev lo hi,
          load_bytes-flat s b o w (omega arith),
          z,
          user 0 w (omega arith),
          read_blocks-flat (suc n) s limit b w (n - w) n dev user (omega arith)
              (λ more. omega arith) (omega arith),
        )
        (ap (λ xs. ok xs s)
          (read_split size s.disk storage ((b + 1) * size) w n (omega arith) (ground arith)))
