-- ===== src/LinkedList/Frame.antt =====
-- What a change elsewhere on the device leaves of a list of chunks.
use native.Mathlib.Nat.{mul-le-mul_left}
use cominix_fs.Prelude.{
  ℕ, ◌+◌, ◌-◌, ◌*◌, ◌<◌, ◌≤◌, ◌≢◌, ◌≡◌, refl, sym, ap, ap₂, subst, ◌∙◌, List, [], ◌∷◌, ◌++◌,
  append-nil, arith, length, ltb, Bool-cases, inl, inr, ltb→lt, ◌⊎◌, pow_pos,
}
use cominix_fs.Chunk.{ChunkEntry}
use cominix_fs.Disk.{Disk, flat_read, flat_write, from_le, byte_at}
use cominix_fs.Disk.Flat.{flat_read_congr, byte_at-flat_write_apart}
use cominix_fs.Fs.{Bits, Fs, s_blocksize}
use cominix_fs.Fs.Device.{pow_split}
use cominix_fs.LinkedList.{entries_per_block, entry_of}
use cominix_fs.LinkedList.Search.{entry_at, link_at, Entries, entry_in_block}
use cominix_fs.LinkedList.Segment.{moved, Owned, Seg, Last}

-- A device has the same bytes in block `b`.
abbrev pub SameBlock : Fs → Disk → ℕ → Type 0
SameBlock s d b =
    (o : ℕ)
    → o < s_blocksize s
    → byte_at (s_blocksize s) d (b * s_blocksize s + o)
      ≡ byte_at (s_blocksize s) s.disk (b * s_blocksize s + o)

-- two blocks do not overlap
pub blocks_apart :
    (size a b : ℕ) → a ≢ b → ((a + 1) * size ≤ b * size) ⊎ ((b + 1) * size ≤ a * size)
blocks_apart size a b ne = elim (Bool-cases (ltb a b)) [
  | inl e ↦
      inl (omega (arith, mul-le-mul_left {m = a + 1} {n = b} size (omega (arith, ltb→lt a b e))))
  | inr e ↦
      let above : b ≤ a = ground arith in
      inr (omega (arith, mul-le-mul_left {m = b + 1} {n = a} size (omega arith)))
]

-- a write inside one block leaves the others as they are
pub write-SameBlock :
    (size : ℕ) (d : Disk) (a k : ℕ) (xs : List ℕ) (b o : ℕ)
    → 0 < size
    → k + length xs ≤ size
    → a ≢ b
    → o < size
    → byte_at size (flat_write size d (a * size + k) xs) (b * size + o)
      ≡ byte_at size d (b * size + o)
write-SameBlock size d a k xs b o pos fits ne inside =
    byte_at-flat_write_apart size pos d (a * size + k) xs (b * size + o)
      (elim (blocks_apart size a b ne) [
        | inl up ↦ inr (omega arith)
        | inr down ↦ inl (omega arith)
      ])

pub block_size : (s : Fs) → 9 ≤ s.s_blocksize_bits → 512 ≤ s_blocksize s
block_size s lo = omega (arith, pow_split s.s_blocksize_bits lo, pow_pos (s.s_blocksize_bits - 9))

-- While a list's end moves from `end` to `end'`, every other zone in use keeps its bytes and stays
-- in use.
abbrev pub Keeps : Fs → ℕ → ℕ → Disk → List Bits → ℕ → Type 0
Keeps s end brk d m end' =
    (c : ℕ) → Owned s c → c ≢ end → SameBlock s d c × Owned (moved s brk d m) c × (c ≢ end')

pub Keeps-trans :
    (s : Fs) (end brk : ℕ) (d : Disk) (m : List Bits) (end' brk' : ℕ) (d' : Disk) (m' : List Bits)
    (end'' : ℕ)
    → Keeps s end brk d m end'
    → Keeps (moved s brk d m) end' brk' d' m' end''
    → Keeps s end brk' d' m' end''
Keeps-trans s end brk d m end' brk' d' m' end'' first second c owned ne =
    let (same, owned', ne') = first c owned ne in
    let (same', owned'', ne'') = second c owned' ne' in (λ o h. same' o h ∙ same o h, owned'', ne'')

module _ (s : Fs) (lo : 9 ≤ s.s_blocksize_bits) (brk : ℕ) (d : Disk) (m : List Bits) where
  pub read_same :
      (b o n : ℕ)
      → o + n ≤ s_blocksize s
      → SameBlock s d b
      → flat_read (s_blocksize s) d (b * s_blocksize s + o) n
        ≡ flat_read (s_blocksize s) s.disk (b * s_blocksize s + o) n
  read_same b o n fits same =
      flat_read_congr (s_blocksize s) d s.disk (b * s_blocksize s + o) n λ c above below.
        let off = c - b * s_blocksize s in
        let at : b * s_blocksize s + off ≡ c = omega arith in
        subst (λ a. byte_at (s_blocksize s) d a ≡ byte_at (s_blocksize s) s.disk a) at
          (same off (omega arith))

  pub entry_same :
      (b k : ℕ)
      → k < entries_per_block s
      → SameBlock s d b
      → entry_at (moved s brk d m) b k ≡ entry_at s b k
  unfolding entry_at
  entry_same b k h same =
      let room = entry_in_block s lo k h in
      ap₂ (λ x y. entry_of (from_le x) (from_le y)) (read_same b (16 * k) 8 (omega arith) same)
        (read_same b (16 * k + 8) 8 (omega arith) same)

  pub link_same : (b : ℕ) → SameBlock s d b → link_at (moved s brk d m) b ≡ link_at s b
  link_same b same =
      ap from_le (read_same b (s_blocksize s - 4) 4 (omega (arith, block_size s lo)) same)

  pub Entries-same :
      (b i : ℕ) (es : List ChunkEntry)
      → SameBlock s d b
      → Entries s b i es
      → Entries (moved s brk d m) b i es
  Entries-same b i [] same (fits, zero_behind) =
      (fits, λ lt. ap (λ (e : ChunkEntry). e.size) (entry_same b i lt same) ∙ zero_behind lt)
  Entries-same b i (e ∷ es) same (lt, is, big, rest) =
      (lt, entry_same b i lt same ∙ is, big, Entries-same b (i + 1) es same rest)

  pub Last-same :
      (b : ℕ) (es : List ChunkEntry)
      → SameBlock s d b
      → Owned (moved s brk d m) b
      → Last s b es
      → Last (moved s brk d m) b es
  Last-same b es same owned v = record {
    owned = owned;
    fits = v.fits;
    array = λ k h. entry_same b k h same ∙ v.array k h;
    positive = v.positive;
    ends = link_same b same ∙ v.ends;
  }

  -- The full blocks before `old` are as before, and behind `old` the list has more of them.
  pub Seg-step :
      (old new : ℕ) (tail : List (List ChunkEntry))
      → ((c : ℕ) → Owned s c → c ≢ old → SameBlock s d c × Owned (moved s brk d m) c × (c ≢ new))
      → Seg (moved s brk d m) old tail new
      → (b : ℕ) (full : List (List ChunkEntry)) → Seg s b full old
      → Seg (moved s brk d m) b (full ++ tail) new
  Seg-step old new tail keep last b [] e =
      subst (λ a. Seg (moved s brk d m) a tail new) (sym e) last
  Seg-step old new tail keep last b (es ∷ full) (owned, ne, entries, all, linked, rest) =
      let (same, owned', ne') = keep b owned ne in
      let link = link_same b same in
      (
        owned',
        ne',
        Entries-same b 0 es same entries,
        all,
        λ z. linked (sym link ∙ z),
        subst (λ a. Seg (moved s brk d m) a (full ++ tail) new) (sym link)
            (Seg-step old new tail keep last (link_at s b) full rest),
      )

  -- where every block of the list is as before, the list is
  pub Seg-same :
      (end : ℕ)
      → ((c : ℕ) → Owned s c → c ≢ end → SameBlock s d c × Owned (moved s brk d m) c)
      → (b : ℕ) (full : List (List ChunkEntry)) → Seg s b full end
      → Seg (moved s brk d m) b full end
  Seg-same end keep b full seg =
      subst (λ xs. Seg (moved s brk d m) b xs end) (append-nil full)
        (Seg-step end end []
          (λ c owned ne. let (same, owned') = keep c owned ne in (same, owned', ne)) refl b full
          seg)
