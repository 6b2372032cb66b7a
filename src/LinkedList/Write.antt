-- ===== src/LinkedList/Write.antt =====
-- The writes of src/linked_list.h into one block: an entry, a link, and the zeroes of a new block.
use cominix_fs.Prelude.{
  ℕ, zero, suc, ◌+◌, ◌-◌, ◌*◌, ◌^◌, ◌<◌, ◌≤◌, ◌≢◌, ◌≡◌, refl, sym, ap, ap₂, subst, ◌∙◌, some, List,
  [], ◌∷◌, ◌++◌, arith, length, get_or, length-append, ltb, Bool-cases, inl, inr, ltb→lt, ◌⊎◌, ◌==◌,
  pow_pos, ==_iff,
}
use cominix_fs.Chunk.{ChunkEntry}
use cominix_fs.Disk.{Disk, flat_read, flat_write, from_le, to_le}
use cominix_fs.Disk.Flat.{flat_read-flat_write, flat_read-flat_write_apart, flat_write-append}
use cominix_fs.Disk.Words.{from_le-to_le}
use cominix_fs.Fs.{Fs, s_blocksize, ok, with_disk, b_data}
use cominix_fs.Fs.Buffer.{store_bytes-flat}
use cominix_fs.LinkedList.{entries_per_block, entry_of, store_entry, put_entry}
use cominix_fs.LinkedList.Frame.{SameBlock, write-SameBlock}
use cominix_fs.LinkedList.Search.{entry_at, link_at, entry_in_block}
use cominix_fs.LinkedList.Segment.{Last, AllPositive, no_entry}

-- an entry as its 16 bytes
abbrev pub entry_bytes : ChunkEntry → List ℕ
entry_bytes e = to_le 8 e.location ++ to_le 8 e.size

pub length-entry_bytes : (e : ChunkEntry) → length (entry_bytes e) ≡ 16
unfolding to_le
length-entry_bytes e = refl

get_or-snoc :
    (es : List ChunkEntry) (e : ChunkEntry) → get_or (es ++ (e ∷ [])) (length es) no_entry ≡ e
get_or-snoc [] e = refl
get_or-snoc (x ∷ es) e = get_or-snoc es e

get_or-snoc_other :
    (es : List ChunkEntry) (e : ChunkEntry) (k : ℕ)
    → k ≢ length es
    → get_or (es ++ (e ∷ [])) k no_entry ≡ get_or es k no_entry
get_or-snoc_other [] e zero ne = absurd (ne refl)
get_or-snoc_other [] e (suc k) ne = refl
get_or-snoc_other (x ∷ es) e zero ne = refl
get_or-snoc_other (x ∷ es) e (suc k) ne = get_or-snoc_other es e k (λ z. ne (ap suc z))

AllPositive-snoc :
    (es : List ChunkEntry) (e : ChunkEntry)
    → AllPositive es
    → 0 < e.size
    → AllPositive (es ++ (e ∷ []))
AllPositive-snoc [] e h big = (big, tt)
AllPositive-snoc (x ∷ es) e (p, h) big = (p, AllPositive-snoc es e h big)

-- An entry fits into its two 64-bit words and is not empty.
pub record IsEntry (e : ChunkEntry) : Type 0 where
  pub location_small : e.location < 256 ^ 8
  pub size_small : e.size < 256 ^ 8
  pub some_data : 0 < e.size

-- the device with an entry at place `i` of block `b`
abbrev pub with_entry : Fs → ℕ → ℕ → ChunkEntry → Disk
with_entry s b i e = flat_write (s_blocksize s) s.disk (b * s_blocksize s + 16 * i) (entry_bytes e)

module _ (s : Fs) (lo : 9 ≤ s.s_blocksize_bits) (b i : ℕ) (e : ChunkEntry) where
  abbrev at_entry : ℕ
  at_entry = b * s_blocksize s + 16 * i

  abbrev written : Disk
  written = with_entry s b i e

  big : 0 < s_blocksize s
  big = pow_pos s.s_blocksize_bits

  -- the write in two: location, size
  in_two :
      written
      ≡ flat_write
          (s_blocksize s)
          (flat_write (s_blocksize s) s.disk at_entry (to_le 8 e.location))
          (at_entry + 8)
          (to_le 8 e.size)
  unfolding to_le
  in_two = flat_write-append (s_blocksize s) s.disk at_entry (to_le 8 e.location) (to_le 8 e.size)

  pub entry_new : IsEntry e → entry_at (with_disk s written) b i ≡ e
  unfolding entry_at to_le
  entry_new small =
      let size = s_blocksize s in
      let d₁ = flat_write size s.disk at_entry (to_le 8 e.location) in
      let second : b * size + (16 * i + 8) ≡ at_entry + 8 = omega arith in
      ap₂ entry_of
        (ap (λ d. from_le (flat_read size d at_entry 8)) in_two
          ∙ ap from_le (
              flat_read-flat_write_apart size big d₁ (at_entry + 8) (to_le 8 e.size) at_entry 8
                (inl (omega arith))
              ∙ flat_read-flat_write size big s.disk at_entry (to_le 8 e.location))
          ∙ from_le-to_le 8 e.location small.location_small)
        (ap₂ (λ d a. from_le (flat_read size d a 8)) in_two second
          ∙ ap from_le (flat_read-flat_write size big d₁ (at_entry + 8) (to_le 8 e.size))
          ∙ from_le-to_le 8 e.size small.size_small)

  pub entry_other : (k : ℕ) → k ≢ i → entry_at (with_disk s written) b k ≡ entry_at s b k
  unfolding entry_at
  entry_other k ne =
      let size = s_blocksize s in
      let apart : (o : ℕ)
          → o + 8 ≤ 16
          → (b * size + (16 * k + o) + 8 ≤ at_entry)
            ⊎ (at_entry + length (entry_bytes e) ≤ b * size + (16 * k + o)) =
        λ o h. elim (Bool-cases (ltb k i)) [
          | inl lt ↦ inl (omega (arith, ltb→lt k i lt))
          | inr ge ↦ let above : i < k = ground arith in inr (omega (arith, length-entry_bytes e))
        ] in
      let z : b * size + (16 * k + 0) ≡ b * size + 16 * k = omega arith in
      ap₂ entry_of
        (ap (λ a. from_le (flat_read size written a 8)) (sym z)
          ∙ ap from_le (
              flat_read-flat_write_apart size big s.disk at_entry (entry_bytes e)
                (b * size + (16 * k + 0)) 8 (apart 0 (omega arith)))
          ∙ ap (λ a. from_le (flat_read size s.disk a 8)) z)
        (ap from_le (
          flat_read-flat_write_apart size big s.disk at_entry (entry_bytes e)
            (b * size + (16 * k + 8)) 8 (apart 8 (omega arith))))

  module _ (inside : i < entries_per_block s) where
    room : 16 * i + 16 ≤ s_blocksize s - 4
    room = entry_in_block s lo i inside

    pub link_entry : link_at (with_disk s written) b ≡ link_at s b
    link_entry = ap from_le (
        flat_read-flat_write_apart (s_blocksize s) big s.disk at_entry (entry_bytes e)
          (b * s_blocksize s + (s_blocksize s - 4)) 4
          (inr (omega (arith, room, length-entry_bytes e))))

    pub entry-SameBlock : (c : ℕ) → c ≢ b → SameBlock s written c
    entry-SameBlock c ne o h =
        write-SameBlock (s_blocksize s) s.disk b (16 * i) (entry_bytes e) c o big
          (omega (arith, room, length-entry_bytes e)) (λ z. ne (sym z)) h

    pub put_entry-ok : (n : ℕ) → put_entry (some b) i b n e s ≡ ok (b, n + 1) (with_disk s written)
    unfolding put_entry store_entry b_data
    put_entry-ok n =
        let z : 0 + 16 * i ≡ 16 * i = omega arith in
        rw (
          z,
          store_bytes-flat s b (16 * i) (entry_bytes e) (omega (arith, room, length-entry_bytes e)),
        )

-- A new entry goes behind those that the last block has.
pub Last-put :
    (s : Fs) (b : ℕ) (es : List ChunkEntry) (e : ChunkEntry)
    → 9 ≤ s.s_blocksize_bits
    → length es < entries_per_block s
    → IsEntry e
    → Last s b es
    → Last (with_disk s (with_entry s b (length es) e)) b (es ++ (e ∷ []))
Last-put s b es e lo less small v = record {
  owned = v.owned;
  fits = omega (arith, length-append es (e ∷ []));
  array = λ k h. elim (Bool-cases (k == length es)) [
    | inl same ↦
        let is : k ≡ length es = (==_iff k (length es)).0 same in
        subst
          (λ j.
            entry_at (with_disk s (with_entry s b (length es) e)) b j
            ≡ get_or (es ++ (e ∷ [])) j no_entry)
          (sym is) (entry_new s lo b (length es) e small ∙ sym (get_or-snoc es e))
    | inr other ↦
        let ne : k ≢ length es = λ z. ground arith in
        entry_other s lo b (length es) e k ne ∙ v.array k h ∙ sym (get_or-snoc_other es e k ne)
  ];
  positive = AllPositive-snoc es e v.positive small.some_data;
  ends = link_entry s lo b (length es) e less ∙ v.ends;
}
