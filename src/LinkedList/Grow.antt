-- ===== src/LinkedList/Grow.antt =====
-- `ll_append` of src/linked_list.h with the free zones that it may need.
use native.Mathlib.Nat.{mul-le-mul_left}
use cominix_fs.Prelude.{
  ℕ, ◌+◌, ◌-◌, ◌*◌, ◌<◌, ◌≤◌, ◌≢◌, ◌≡◌, refl, sym, ap, subst, ◌∙◌, List, [], ◌∷◌, ◌++◌,
  append_assoc, arith, length, length-append, inl, inr, ◌⊎◌, ◌==◌, ==_ne, ==_iff, Bool-cases, ltb,
  ltb→lt,
}
use cominix_fs.BitOps.{BitOps}
use cominix_fs.Bitmap.Alloc.{ZmapOk, IsFree}
use cominix_fs.Chunk.{ChunkEntry}
use cominix_fs.Chunk.Alloc.{HeapOk}
use cominix_fs.Disk.{Disk}
use cominix_fs.Fs.{Bits, Fs, ok}
use cominix_fs.LinkedList.{entries_per_block, ll_append}
use cominix_fs.LinkedList.Append.{
  SameHeap, Growing, entry_count, Guarded, put, put_same, ll_append-room, room-Growing,
  room-SameHeap,
}
use cominix_fs.LinkedList.Extend.{
  linked_disk, ll_append-fresh, fresh-Growing, fresh-SameHeap, fresh-Keeps,
}
use cominix_fs.LinkedList.Frame.{Keeps}
use cominix_fs.LinkedList.Fresh.{zoned, zone_bit, Fresh, ll_alloc_new_block-Fresh}
use cominix_fs.LinkedList.Search.{entries_of}
use cominix_fs.LinkedList.Segment.{moved, entries_of-append}
use cominix_fs.LinkedList.Write.{IsEntry}

pub List-cases :
    {A : Type 0} (xs : List A) → (xs ≡ []) ⊎ ((a : A) × (rest : List A) × (xs ≡ a ∷ rest))
List-cases [] = inl refl
List-cases (a ∷ rest) = inr (a, rest, refl)

-- These zones are free, and each is above the one before.
abbrev pub AllFree : Fs → ℕ → List ℕ → Type 0
AllFree s lo [] = Unit
AllFree s lo (z ∷ zs) = (lo ≤ z) × IsFree s z × AllFree s (z + 1) zs

module _ (ops : BitOps) (s : Fs) (r : ℕ) (m : List Bits) (new : Fresh ops s r m) where
  IsFree-kept : (z : ℕ) → z ≢ r → IsFree s z → IsFree (zoned s m) z
  IsFree-kept z ne (lower, upper, free) =
      let apart : zone_bit s r ≢ zone_bit s z = λ e. ne (omega (arith, new.free.0)) in
      (lower, upper, new.bits (zone_bit s z) ∙ rw (==_ne (zone_bit s r) (zone_bit s z) apart) free)

  AllFree-above : (lo : ℕ) (zs : List ℕ) → r < lo → AllFree s lo zs → AllFree (zoned s m) lo zs
  AllFree-above lo [] up h = tt
  AllFree-above lo (z ∷ zs) up (le, free, rest) =
      (le, IsFree-kept z (λ e. omega arith) free, AllFree-above (z + 1) zs (omega arith) rest)

  AllFree-weaken :
      (a b : ℕ) (zs : List ℕ) → a ≤ b → AllFree (zoned s m) b zs → AllFree (zoned s m) a zs
  AllFree-weaken a b [] le h = tt
  AllFree-weaken a b (z ∷ zs) le (above, free, rest) = (omega arith, free, rest)

  -- one zone at most is gone
  pub AllFree-taken :
      (lo : ℕ) (zs : List ℕ)
      → AllFree s lo zs
      → (zs' : List ℕ) × AllFree (zoned s m) lo zs' × (length zs ≤ length zs' + 1)
  AllFree-taken lo [] h = ([], tt, omega arith)
  AllFree-taken lo (z ∷ zs) (le, free, rest) = elim (Bool-cases (z == r)) [
    | inl e ↦
        let same : z ≡ r = (==_iff z r).0 e in
        (
          zs,
          AllFree-weaken lo (z + 1) zs (omega arith) (AllFree-above (z + 1) zs (omega arith) rest),
          omega arith,
        )
    | inr e ↦
        let ne : z ≢ r = λ q. ground arith in
        let (zs', rest', count) = AllFree-taken (z + 1) zs rest in
        (z ∷ zs', (le, IsFree-kept z ne free, rest'), omega arith)
  ]

-- zone maps do not depend on the bytes and on the break
pub ZmapOk-moved :
    (s : Fs) (brk : ℕ) (d : Disk) (m : List Bits) → ZmapOk (zoned s m) → ZmapOk (moved s brk d m)
ZmapOk-moved s brk d m v = record {
  sized = v.sized;
  zero_taken = v.zero_taken;
  first_pos = v.first_pos;
  enough = v.enough;
  small = v.small;
}

pub AllFree-moved :
    (s : Fs) (brk : ℕ) (d : Disk) (m : List Bits) (lo : ℕ) (zs : List ℕ)
    → AllFree (zoned s m) lo zs
    → AllFree (moved s brk d m) lo zs
AllFree-moved s brk d m lo [] h = tt
AllFree-moved s brk d m lo (z ∷ zs) (le, free, rest) =
    (le, free, AllFree-moved s brk d m (z + 1) zs rest)

-- `needed` more entries find room in the last block and in the free zones.
abbrev pub HasRoom : Fs → ℕ → List ChunkEntry → List ℕ → Type 0
HasRoom s needed last zs =
    needed ≤ entries_per_block s - length last + length zs * entries_per_block s

-- A list that grows on valid maps, with the zones that are still free.
pub record Ready (s : Fs) (head end : ℕ) (full : List (List ChunkEntry)) (last : List ChunkEntry)
    (zs : List ℕ) (needed : ℕ) : Type 0 where
  pub zmap : ZmapOk s
  pub guarded : Guarded s
  pub list : Growing s head end full last
  pub free : AllFree s 0 zs
  pub room : HasRoom s needed last zs

-- room for fewer entries
pub Ready-less :
    (s : Fs) (head end : ℕ) (full : List (List ChunkEntry)) (last : List ChunkEntry) (zs : List ℕ)
    (fewer needed : ℕ)
    → fewer ≤ needed
    → Ready s head end full last zs needed
    → Ready s head end full last zs fewer
Ready-less s head end full last zs fewer needed le r = record {
  zmap = r.zmap;
  guarded = r.guarded;
  list = r.list;
  free = r.free;
  room = omega (arith, r.room);
}

-- What appending an entry leaves: the list has it at its end, and above the zones nothing changed.
abbrev pub Appended :
    (ops : BitOps) (s : Fs) (head end : ℕ) (full : List (List ChunkEntry)) (last : List ChunkEntry)
    (e : ChunkEntry) (needed : ℕ)
    → Type 0
Appended ops s head end full last e needed =
    (end' : ℕ) × (d : Disk) × (m : List Bits) × (full' : List (List ChunkEntry)) × (last' : List
      ChunkEntry)
    × (zs' : List ℕ) × (ll_append ops end (entry_count s full last) e s
        ≡ ok (end', entry_count s full' last') (moved s s.sb.heap_brk d m))
    × Ready (moved s s.sb.heap_brk d m) head end' full' last' zs' needed
    × (entries_of full' ++ last' ≡ (entries_of full ++ last) ++ (e ∷ []))
    × SameHeap s d
    × Keeps s end s.sb.heap_brk d m end'

module _ (ops : BitOps) (s : Fs) (v : HeapOk s) (head end : ℕ) (full : List (List ChunkEntry))
    (last : List ChunkEntry) (zs : List ℕ) (needed : ℕ)
    (ready : Ready s head end full last zs (needed + 1)) (e : ChunkEntry) (small : IsEntry e) where
  append_room : length last < entries_per_block s → Appended ops s head end full last e needed
  append_room room =
      let count : entry_count s full last + 1 ≡ entry_count s full (last ++ (e ∷ [])) =
        omega (arith, length-append last (e ∷ [])) in
      let disk = put ops s v head end full last ready.list e small room in
      (
        end,
        disk,
        s.s_zmap,
        full,
        last ++ (e ∷ []),
        zs,
        ll_append-room ops s v head end full last ready.list e small room
            ∙ ap (λ k. ok (end, k) (moved s s.sb.heap_brk disk s.s_zmap)) count,
        record {
          zmap = ZmapOk-moved s s.sb.heap_brk disk s.s_zmap ready.zmap;
          guarded = ready.guarded;
          list = room-Growing ops s v head end full last ready.list e small room;
          free = AllFree-moved s s.sb.heap_brk disk s.s_zmap 0 zs ready.free;
          room = omega (arith, ready.room, length-append last (e ∷ []));
        },
        sym (append_assoc (entries_of full) last (e ∷ [])),
        room-SameHeap ops s v head end full last ready.list e small room,
        λ c owned ne. (put_same ops s v head end full last ready.list e small room c ne, owned, ne),
      )

  append_fresh :
      (z : ℕ) (more : List ℕ)
      → zs ≡ z ∷ more
      → length last ≡ entries_per_block s
      → Appended ops s head end full last e needed
  append_fresh z more some_zone all =
      let frees = ready.free in
      let z_free : IsFree s z = (subst (AllFree s 0) some_zone frees).1 in
      let (r, m, new) = ll_alloc_new_block-Fresh ops s ready.zmap z z_free in
      let (zs', rest, fewer) = AllFree-taken ops s r m new 0 zs frees in
      let guarded = ready.guarded in
      let disk = linked_disk ops s v head end full last ready.list e small guarded all r m new in
      let count : entry_count s full last + 1 ≡ entry_count s (full ++ (last ∷ [])) (e ∷ []) =
        rw (length-append full (last ∷ [])) (omega arith) in
      let fewer_entries : length zs * entries_per_block s ≤ (length zs' + 1) * entries_per_block s =
        omega (
          arith,
          mul-le-mul_left {m = length zs} {n = length zs' + 1} (entries_per_block s) fewer,
        ) in
      (
        r,
        disk,
        m,
        full ++ (last ∷ []),
        e ∷ [],
        zs',
        ll_append-fresh ops s v head end full last ready.list e small guarded all r m new
            ∙ ap (λ k. ok (r, k) (moved s s.sb.heap_brk disk m)) count,
        record {
          zmap = ZmapOk-moved s s.sb.heap_brk disk m new.valid;
          guarded = new.keeps (zone_bit s s.sb.extra_sb_location) guarded;
          list = fresh-Growing ops s v head end full last ready.list e small guarded all r m new;
          free = AllFree-moved s s.sb.heap_brk disk m 0 zs' rest;
          room = omega (arith, ready.room);
        },
        ap (λ es. es ++ (e ∷ [])) (entries_of-append full last),
        fresh-SameHeap ops s v head end full last ready.list e small guarded all r m new,
        fresh-Keeps ops s v head end full last ready.list e small guarded all r m new,
      )

  no_room_left : zs ≡ [] → length last ≡ entries_per_block s → ⊥
  no_room_left none all =
      let no_zones : length zs ≡ 0 = ap length none in
      let nothing : length zs * entries_per_block s ≡ 0 = rw no_zones (omega arith) in
      omega (arith, ready.room)

  -- On a valid heap layout and valid zone maps in which the zone of the extra super block is taken,
  -- for a list of full blocks and a last one, and for an entry that is not empty and fits into its
  -- two words, with room for it in the last block or in a free zone: `ll_append` ends without a
  -- fault, the list has the entry at its end and is well formed, the maps are valid, the zones left
  -- have room for one entry less, and no byte above the zones is changed.
  pub ll_append-Appended : Appended ops s head end full last e needed
  ll_append-Appended = elim (Bool-cases (ltb (length last) (entries_per_block s))) [
    | inl less ↦ append_room (ltb→lt (length last) (entries_per_block s) less)
    | inr not_less ↦
        let all : length last ≡ entries_per_block s = ground (arith, ready.list.end_block.fits) in
        elim (List-cases zs) [
          | inl none ↦ absurd (no_room_left none all)
          | inr (z, more, some_zone) ↦ append_fresh z more some_zone all
        ]
  ]
