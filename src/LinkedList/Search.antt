-- ===== src/LinkedList/Search.antt =====
-- `ll_search_left` of src/linked_list.h.
use cominix_fs.Prelude.{
  ℕ, zero, suc, ◌+◌, ◌-◌, ◌*◌, ◌^◌, ◌<◌, ◌≤◌, ◌≢◌, ◌≡◌, refl, sym, ap, ◌∙◌, true, false, ◌%◌, inl,
  inr, Option, none, some, List, [], ◌∷◌, ◌++◌, append-nil, arith, ==_ne, le→ltb, ltb,
  if◌then◌else◌, Bool-cases, Option-cases, length, pow_pos,
}
use cominix_fs.Disk.{flat_read, from_le}
use cominix_fs.Fs.{Fs, s_blocksize, ok, at, load_le}
use cominix_fs.Fs.Buffer.{load_le-flat}
use cominix_fs.Fs.Device.{load_block-ok, pow_split}
use cominix_fs.Chunk.{ChunkEntry}
use cominix_fs.LinkedList.{
  entries_per_block, entry_of, ptr_next, load_entry, slt, search_entries, ll_search_left,
}

-- what the array of block `b` holds at `i`, and the block's link
unfoldable pub entry_at : Fs → ℕ → ℕ → ChunkEntry
entry_at s b i =
    entry_of (from_le (flat_read (s_blocksize s) s.disk (b * s_blocksize s + 16 * i) 8))
      (from_le (flat_read (s_blocksize s) s.disk (b * s_blocksize s + (16 * i + 8)) 8))

abbrev pub link_at : Fs → ℕ → ℕ
link_at s b = from_le (flat_read (s_blocksize s) s.disk (b * s_blocksize s + (s_blocksize s - 4)) 4)

-- From `i` on the array holds `es`, each of a positive size, and a 0 size behind them if there is
-- room.
abbrev pub Entries : Fs → ℕ → ℕ → List ChunkEntry → Type 0
Entries s b i [] = (i ≤ entries_per_block s) × (i < entries_per_block s → (entry_at s b i).size ≡ 0)
Entries s b i (e ∷ es) =
    (i < entries_per_block s) × (entry_at s b i ≡ e) × (0 < e.size) × Entries s b (i + 1) es

-- From block `b` on the list has the given blocks, each full but the last.
abbrev pub Blocks : Fs → ℕ → List (List ChunkEntry) → Type 0
Blocks s b [] = ⊥
Blocks s b (es ∷ []) = (s.readable b ≡ true) × Entries s b 0 es × (link_at s b ≡ 0)
Blocks s b (es ∷ (fs ∷ more)) =
    (s.readable b ≡ true)
    × Entries s b 0 es
    × (length es ≡ entries_per_block s)
    × (link_at s b ≢ 0)
    × Blocks s (link_at s b) (fs ∷ more)

-- The entry that `pos` falls into when the first begins at `accum`, and where it begins.
unfoldable pub find_entry : ℕ → ℕ → List ChunkEntry → Option ChunkEntry × ℕ
find_entry pos accum [] = (none, accum)
find_entry pos accum (e ∷ es) =
    if ltb pos (accum + e.size) then (some e, accum) else find_entry pos (accum + e.size) es

-- the bytes of all the entries
unfoldable pub total : List ChunkEntry → ℕ
total [] = 0
total (e ∷ es) = e.size + total es

total-append : (es fs : List ChunkEntry) → total (es ++ fs) ≡ total es + total fs
unfolding total
total-append [] fs = omega arith
total-append (e ∷ es) fs = omega (arith, total-append es fs)

-- below 2 ^ 63 the order of the signed numbers is that of the words
slt-ltb : (a b : ℕ) → a < 2 ^ 63 → b < 2 ^ 63 → slt a b ≡ ltb a b
unfolding slt
slt-ltb a b a_small b_small = ground arith

slt-le : (a b : ℕ) → a < 2 ^ 63 → b ≤ a → slt a b ≡ false
slt-le a b small le = slt-ltb a b small (omega arith) ∙ le→ltb a b le

module _ (s : Fs) (lo : 9 ≤ s.s_blocksize_bits) where
  large : s_blocksize s ≡ 512 * 2 ^ (s.s_blocksize_bits - 9)
  large = pow_split s.s_blocksize_bits lo

  -- an entry ends before the link
  pub entry_in_block : (i : ℕ) → i < entries_per_block s → 16 * i + 16 ≤ s_blocksize s - 4
  entry_in_block i h = omega (arith, large)

  load_entry-ok :
      (b i : ℕ) → i < entries_per_block s → load_entry (at b 0) i s ≡ ok (entry_at s b i) s
  unfolding load_entry entry_at
  load_entry-ok b i h =
      let first : 0 + 16 * i ≡ 16 * i = omega arith in
      let second : 0 + (16 * i + 8) ≡ 16 * i + 8 = omega arith in
      rw (
        first,
        second,
        load_le-flat s b (16 * i) 8 (omega (arith, entry_in_block i h)),
        load_le-flat s b (16 * i + 8) 8 (omega (arith, entry_in_block i h)),
      )

  load_link-ok : (b : ℕ) → load_le 4 (ptr_next s (at b 0)) s ≡ ok (link_at s b) s
  unfolding ptr_next
  load_link-ok b =
      let z : 0 + (s_blocksize s - 4) ≡ s_blocksize s - 4 = omega arith in
      rw (
        z,
        load_le-flat s b (s_blocksize s - 4) 4
            (omega (arith, large, pow_pos (s.s_blocksize_bits - 9))),
      )

  search_entries-find :
      (rounds i b pos accum : ℕ) (es : List ChunkEntry)
      → i + rounds ≡ entries_per_block s
      → Entries s b i es
      → pos < 2 ^ 63
      → accum + total es < 2 ^ 63
      → search_entries rounds i (at b 0) pos accum s ≡ ok (find_entry pos accum es) s
  unfolding search_entries find_entry total
  search_entries-find zero i b pos accum [] e h small bound = refl
  search_entries-find zero i b pos accum (x ∷ es) e h small bound = absurd (omega (arith, h.0))
  search_entries-find (suc rounds) i b pos accum [] e h small bound =
      let lt : i < entries_per_block s = omega arith in rw (load_entry-ok b i lt, h.1 lt)
  search_entries-find (suc rounds) i b pos accum (x ∷ es) e (lt, is, big, rest) small bound =
      let next : (accum + x.size) % 2 ^ 64 ≡ accum + x.size = omega arith in
      let order : slt pos (accum + x.size) ≡ ltb pos (accum + x.size) =
        slt-ltb pos (accum + x.size) small (omega arith) in
      rw (load_entry-ok b i lt, is, ==_ne x.size 0 (λ z. omega arith), next, order)
        (elim (Bool-cases (ltb pos (accum + x.size))) [
          | inl here ↦ rw here
          | inr later ↦ rw later (
              search_entries-find rounds (i + 1) b pos (accum + x.size) es (omega arith) rest small
                (omega arith))
        ])

  -- Where nothing is found, the position lies behind all the entries, each of a byte at least.
  find_entry-none :
      (b i pos accum : ℕ) (es : List ChunkEntry)
      → Entries s b i es
      → accum ≤ pos
      → (find_entry pos accum es).0 ≡ none
      → (accum + length es ≤ (find_entry pos accum es).1)
        × ((find_entry pos accum es).1 ≤ pos)
        × ((find_entry pos accum es).1 ≡ accum + total es)
  unfolding find_entry total
  find_entry-none b i pos accum [] h le e = omega arith
  find_entry-none b i pos accum (x ∷ es) (lt, is, big, rest) le e =
      ground (arith, find_entry-none b (i + 1) pos (accum + x.size) es rest)

unfoldable pub entries_of : List (List ChunkEntry) → List ChunkEntry
entries_of [] = []
entries_of (es ∷ more) = es ++ entries_of more

-- what the source returns for a search that found an entry, or none
unfoldable pub found : Option ChunkEntry × ℕ → ChunkEntry × ℕ
found r = elim r.0 [ none ↦ (entry_of 0 0, r.1) | some e ↦ (e, r.1) ]

-- a search in two parts of a list
find_entry-append_some :
    (pos accum : ℕ) (es fs : List ChunkEntry) (e : ChunkEntry)
    → (find_entry pos accum es).0 ≡ some e
    → find_entry pos accum (es ++ fs) ≡ find_entry pos accum es
unfolding find_entry
find_entry-append_some pos accum [] fs e h = cc
find_entry-append_some pos accum (x ∷ es) fs e h =
    ground (arith, find_entry-append_some pos (accum + x.size) es fs e)

find_entry-append_none :
    (pos accum : ℕ) (es fs : List ChunkEntry)
    → (find_entry pos accum es).0 ≡ none
    → find_entry pos accum (es ++ fs) ≡ find_entry pos (find_entry pos accum es).1 fs
unfolding find_entry
find_entry-append_none pos accum [] fs h = refl
find_entry-append_none pos accum (x ∷ es) fs h =
    ground (arith, find_entry-append_none pos (accum + x.size) es fs)

module _ (s : Fs) (lo : 9 ≤ s.s_blocksize_bits) where
  one_per_block : 0 < entries_per_block s
  one_per_block = omega (arith, pow_split s.s_blocksize_bits lo, pow_pos (s.s_blocksize_bits - 9))

  -- For blocks of at least 512 bytes, a list whose blocks are all full but the last, a position
  -- below 2 ^ 63 and not before the first entry's, entries that end below 2 ^ 63 (where the first
  -- begins and their sizes together), and more fuel than the bytes between the two, the search over
  -- the blocks ends without a fault and returns what a search in all the entries one behind the
  -- other returns: the entry that the position falls into and where it begins, or an empty entry
  -- past the end. Nothing is changed.
  pub ll_search_left-find :
      (fuel head pos accum : ℕ) (blocks : List (List ChunkEntry))
      → Blocks s head blocks
      → accum ≤ pos
      → pos < 2 ^ 63
      → accum + total (entries_of blocks) < 2 ^ 63
      → pos < accum + fuel
      → ll_search_left fuel head pos accum s
        ≡ ok (found (find_entry pos accum (entries_of blocks))) s
  unfolding ll_search_left entries_of found
  ll_search_left-find zero head pos accum blocks h le small bound enough = absurd (omega arith)
  ll_search_left-find (suc fuel) head pos accum [] h le small bound enough = absurd h
  ll_search_left-find (suc fuel) head pos accum (es ∷ []) (readable, entries, last) le small bound
        enough =
      rw
        (
          slt-le pos accum small le,
          load_block-ok s head lo readable,
          search_entries-find s lo (entries_per_block s) 0 head pos accum es (omega arith) entries
              small (omega (arith, total-append es [])),
          append-nil,
        )
        (elim (Option-cases (find_entry pos accum es).0) [
          | inl e ↦ rw (e, load_link-ok s lo head, last)
          | inr (x, e) ↦ rw e
        ])
  ll_search_left-find (suc fuel) head pos accum (es ∷ (fs ∷ more))
        (readable, entries, full, linked, rest) le small bound enough =
      rw
        (
          slt-le pos accum small le,
          load_block-ok s head lo readable,
          search_entries-find s lo (entries_per_block s) 0 head pos accum es (omega arith) entries
              small (omega (arith, total-append es (fs ++ entries_of more))),
        )
        (elim (Option-cases (find_entry pos accum es).0) [
          | inl e ↦
              let a = (find_entry pos accum es).1 in
              let (after, before, end) = find_entry-none s lo head 0 pos accum es entries le e in
              rw (e, load_link-ok s lo head, ==_ne (link_at s head) 0 linked)
                (ll_search_left-find fuel (link_at s head) pos a (fs ∷ more) rest before small
                    (omega (arith, end, total-append es (fs ++ entries_of more)))
                    (omega (arith, one_per_block))
                  ∙ ap (λ r. ok (found r) s)
                      (sym (find_entry-append_none pos accum es (fs ++ entries_of more) e)))
          | inr (x, e) ↦ rw (find_entry-append_some pos accum es (fs ++ entries_of more) x e, e)
        ])
