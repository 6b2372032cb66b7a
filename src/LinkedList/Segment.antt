-- ===== src/LinkedList/Segment.antt =====
-- A list of chunks on disk while it grows: the full blocks, each linked to the next, and the last
-- block, which is being filled. Also what a change elsewhere on the device leaves of it.
use cominix_fs.Prelude.{
  ℕ, zero, suc, ◌+◌, ◌-◌, ◌<◌, ◌≤◌, ◌≢◌, ◌≡◌, refl, sym, ap, ◌∙◌, true, List, [], ◌∷◌, ◌++◌,
  append-nil, append_assoc, arith, length, get_or, pow_pos,
}
use native.Mathlib.Nat.{mul-le-mul_left}
use cominix_fs.Bitmap.Alloc.{busy}
use cominix_fs.Chunk.{ChunkEntry}
use cominix_fs.Chunk.Alloc.{HeapOk}
use cominix_fs.Disk.{Disk}
use cominix_fs.Fs.{Bits, Fs, s_blocksize}
use cominix_fs.LinkedList.{entries_per_block, entry_of}
use cominix_fs.LinkedList.Search.{entry_at, link_at, Entries, Blocks, entries_of}

-- a mounted state after a run: the break, the bytes and the zone maps may be others
abbrev pub moved : Fs → ℕ → Disk → List Bits → Fs
moved s brk d m = record s { sb = record (s.sb) { heap_brk = brk }; disk = d; s_zmap = m }

-- A zone of the data area that is in use, but not for the extra super block.
abbrev pub Owned : Fs → ℕ → Type 0
Owned s b =
    (s.sb.s_firstdatazone ≤ b)
    × (b < s.sb.s_nzones)
    × (busy s (b - s.sb.s_firstdatazone + 1) ≡ true)
    × (b ≢ s.sb.extra_sb_location)

abbrev pub no_entry : ChunkEntry
no_entry = entry_of 0 0

-- From block `b` on the links lead over full blocks to block `end`.
abbrev pub Seg : Fs → ℕ → List (List ChunkEntry) → ℕ → Type 0
Seg s b [] end = b ≡ end
Seg s b (es ∷ more) end =
    Owned s b
    × (b ≢ end)
    × Entries s b 0 es
    × (length es ≡ entries_per_block s)
    × (link_at s b ≢ 0)
    × Seg s (link_at s b) more end

abbrev pub AllPositive : List ChunkEntry → Type 0
AllPositive [] = Unit
AllPositive (e ∷ es) = (0 < e.size) × AllPositive es

-- The last block: its entries, empty ones behind them, and no link.
pub record Last (s : Fs) (b : ℕ) (es : List ChunkEntry) : Type 0 where
  pub owned : Owned s b
  pub fits : length es ≤ entries_per_block s
  pub array : (k : ℕ) → k < entries_per_block s → entry_at s b k ≡ get_or es k no_entry
  pub positive : AllPositive es
  pub ends : link_at s b ≡ 0

pub get_or_past : (es : List ChunkEntry) (k : ℕ) → length es ≤ k → get_or es k no_entry ≡ no_entry
get_or_past [] k h = refl
get_or_past (e ∷ es) zero h = absurd (omega arith)
get_or_past (e ∷ es) (suc k) h = get_or_past es k (omega arith)

module _ (s : Fs) (b : ℕ) where
  -- an array that reads as a list with nothing behind it holds its entries
  array-Entries :
      (i : ℕ) (es : List ChunkEntry)
      → i + length es ≤ entries_per_block s
      → ((k : ℕ) → i + k < entries_per_block s → entry_at s b (i + k) ≡ get_or es k no_entry)
      → AllPositive es
      → Entries s b i es
  array-Entries i [] fits array positive = (
    omega arith,
    λ lt.
        let z : i + 0 ≡ i = omega arith in
        ap (λ (e : ChunkEntry). e.size) (rw z at (array 0 (omega arith))),
  )
  array-Entries i (e ∷ es) fits array (big, positive) =
      let z : i + 0 ≡ i = omega arith in
      (
        omega arith,
        rw z at (array 0 (omega arith)),
        big,
        array-Entries (i + 1) es (omega arith)
            (λ k lt.
              let next : i + 1 + k ≡ i + suc k = omega arith in
              ap (entry_at s b) next ∙ array (suc k) (omega arith))
            positive,
      )

pub Last-Entries : (s : Fs) (b : ℕ) (es : List ChunkEntry) → Last s b es → Entries s b 0 es
Last-Entries s b es v =
    array-Entries s b 0 es (omega (arith, v.fits))
      (λ k lt. let z : 0 + k ≡ k = omega arith in ap (entry_at s b) z ∙ v.array k (omega arith))
      v.positive

pub owned-readable : (s : Fs) (b : ℕ) → HeapOk s → b < s.sb.s_nzones → s.readable b ≡ true
owned-readable s b v h = v.device.blocks b (
    omega (
      arith,
      v.zones,
      v.above,
      v.below,
      pow_pos s.s_blocksize_bits,
      mul-le-mul_left {m = b + 1} {n = s.sb.s_nzones} (s_blocksize s) (omega arith),
    ))

-- such a list is one that can be searched
pub Seg-Blocks :
    (s : Fs) (b end : ℕ) (full : List (List ChunkEntry)) (es : List ChunkEntry)
    → HeapOk s
    → Seg s b full end
    → Last s end es
    → Blocks s b (full ++ (es ∷ []))
Seg-Blocks s b end [] es v e last = (
  owned-readable s b v (rw e (last.owned.1)),
  rw e (Last-Entries s end es last),
  rw e (last.ends),
)
Seg-Blocks s b end (f ∷ []) es v (owned, ne, entries, full, linked, e) last = (
  owned-readable s b v owned.1,
  entries,
  full,
  linked,
  Seg-Blocks s (link_at s b) end [] es v e last,
)
Seg-Blocks s b end (f ∷ (g ∷ more)) es v (owned, ne, entries, full, linked, seg) last = (
  owned-readable s b v owned.1,
  entries,
  full,
  linked,
  Seg-Blocks s (link_at s b) end (g ∷ more) es v seg last,
)

pub entries_of-append :
    (xs : List (List ChunkEntry)) (es : List ChunkEntry)
    → entries_of (xs ++ (es ∷ [])) ≡ entries_of xs ++ es
unfolding entries_of
entries_of-append [] es = append-nil es
entries_of-append (x ∷ xs) es =
    ap (λ ys. x ++ ys) (entries_of-append xs es) ∙ sym (append_assoc x (entries_of xs) es)
