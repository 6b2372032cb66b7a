-- ===== src/Cdc/Local.antt =====
-- A chunk's end depends on the bytes of the chunk alone: equal data at two places, in two files, is
-- cut in the same way.
use Prim.Native.Nat.{bit_and}
use cominix_fs.Prelude.{
  ℕ, zero, suc, ◌+◌, ◌-◌, ◌^◌, ◌<◌, ◌≤◌, ◌≡◌, refl, sym, ap, ◌∙◌, Bool, ◌⊎◌, none, some, inl, inr,
  arith, leb, ◌==◌, if◌then◌else◌, Bool-cases, Option-cases, leb→le,
}
use cominix_fs.Cdc.{
  ReadByte, Scan, Scanned, cut, mask, min_size, read_one, roll, scan, returned, cdc_get_chunk_size,
}
use cominix_fs.Cdc.Bounds.{begin, room, cdc-short, cdc-scan}

read_one-none : (f : ReadByte) (c : Scan) → f c.pos ≡ none → read_one f c ≡ c
unfolding read_one
read_one-none f c e = rw (read_one, e)

read_one-some :
    (f : ReadByte) (c : Scan) (x : ℕ)
    → f c.pos ≡ some x
    → read_one f c ≡ record c { pos = c.pos + 1; b = x }
unfolding read_one
read_one-some f c x e = rw (read_one, e)

-- Two scans that stand at the same distance `k` from `p` and `q` and agree in all else.
abbrev Aligned : ℕ → ℕ → ℕ → Scan → Scan → Type 0
Aligned p q k c d = (c.pos ≡ p + k) × (d.pos ≡ q + k) × (c.fp ≡ d.fp) × (c.b ≡ d.b)

-- two rounds with the same test end alike, if what follows does
stop_or :
    {t t' : Bool} (x y : Scanned)
    → t ≡ t'
    → (i : ℕ) → returned x ≡ returned y
    → returned (if t then cut i else x) ≡ returned (if t' then cut i else y)
stop_or {t} {t'} x y e i h = ground arith

module _ (f g : ReadByte) (p q m : ℕ) (same : (k : ℕ) → k < m → f (p + k) ≡ g (q + k)) where
  -- A round keeps two scans aligned, at the same place or one further.
  roll-Aligned :
      (k : ℕ) (c d : Scan)
      → Aligned p q k c d
      → k < m
      → (Aligned p q k (roll f c) (roll g d)) ⊎ (Aligned p q (k + 1) (roll f c) (roll g d))
  unfolding roll
  roll-Aligned k c d (at_p, at_q, fp, b) h =
      let read : f c.pos ≡ g d.pos = ap f at_p ∙ same k h ∙ ap g (sym at_q) in
      elim (Option-cases (g d.pos)) [
        | inl e ↦
            inl (rw (read_one-none f c (read ∙ e), read_one-none g d e) (at_p, at_q, rw (fp, b), b))
        | inr (x, e) ↦ inr (
            rw (read_one-some f c x (read ∙ e), read_one-some g d x e)
              (omega arith, omega arith, rw fp, refl))
      ]

  scan_congr :
      (rounds i k : ℕ) (c d : Scan)
      → Aligned p q k c d
      → k + rounds ≤ m
      → returned (scan f rounds i c) ≡ returned (scan g rounds i d)
  unfolding scan
  scan_congr zero i k c d a h = refl
  scan_congr (suc rounds) i k c d a h =
      let step = roll-Aligned k c d a (omega arith) in
      elim step [
        | inl a' ↦
            stop_or _ _ (ap (λ n. bit_and n mask == 0) a'.2) i
              (scan_congr rounds (i + 1) k (roll f c) (roll g d) a' (omega arith))
        | inr a' ↦
            stop_or _ _ (ap (λ n. bit_and n mask == 0) a'.2) i
              (scan_congr rounds (i + 1) (k + 1) (roll f c) (roll g d) a' (omega arith))
      ]

-- At positions inside two files whose sizes fit into 63 bits, where the same bytes follow over the
-- room of a chunk, and the room is the same, the chunks that begin there have the same size.
pub cdc_get_chunk_size_congr :
    (f g : ReadByte) (i_size j_size p q : ℕ)
    → p < i_size
    → i_size < 2 ^ 63
    → q < j_size
    → j_size < 2 ^ 63
    → room (i_size - p) ≡ room (j_size - q)
    → ((k : ℕ) → k < room (i_size - p) → f (p + k) ≡ g (q + k))
    → cdc_get_chunk_size f i_size p ≡ cdc_get_chunk_size g j_size q
cdc_get_chunk_size_congr f g i_size j_size p q hp sp hq sq rooms same =
    elim (Bool-cases (leb (i_size - p) min_size)) [
      | inl short ↦
          let e : i_size - p ≡ j_size - q = ground arith in
          cdc-short f i_size p hp sp (leb→le (i_size - p) min_size short)
          ∙ e
          ∙ sym (cdc-short g j_size q hq sq (omega (arith, leb→le (i_size - p) min_size short)))
      | inr long ↦
          let more : min_size < i_size - p = ground arith in
          let more' : min_size < j_size - q = ground arith in
          cdc-scan f i_size p hp sp more
          ∙ scan_congr f g p q (room (i_size - p)) same (room (i_size - p) - min_size) min_size
              min_size (begin p) (begin q) (refl, refl, refl, refl) (ground arith)
          ∙ ap (λ n. returned (scan g (n - min_size) min_size (begin q))) rooms
          ∙ sym (cdc-scan g j_size q hq sq more')
    ]
