-- ===== src/Dir/Search.antt =====
-- The search for room in `cominix_add_link` of src/dir.c.
use native.Mathlib.Nat.{div-add-mod', mod-lt, mul-le-mul_right, add-mul, mul-div_cancel}
use cominix_fs.Prelude.{
  ℕ, ◌+◌, ◌*◌, ◌/◌, ◌<◌, ◌≤◌, ◌≡◌, ◌≢◌, sym, ap, ap₂, ◌∙◌, Bool, true, false, ◌⊎◌, inl, inr, Option,
  none, some, List, arith, Bool-cases, ltb, ltb→lt, ◌==◌, ==_self, ==_ne, ==_iff, if◌then◌else◌,
  length,
}
use cominix_fs.Dir.{
  Dir, page_size, dir_pages, cominix_last_byte, for_each, namecompare, Room, got_it, exists,
  room_test, find_room,
}
use cominix_fs.Dir.Find.{place_of, namecompare-slot}
use cominix_fs.Dir.Loop.{for_each_congr, for_each-nested, for_each-some, first_true}
use cominix_fs.Dir.Slots.{
  DirOk, slot_ino, slot_name, hit, place, full, rest, entry_in_page, entries_of_page, pages_full,
  pages_more, last_byte_full, last_byte_end, inumber-slot,
}
use cominix_fs.Fs.{SbInfo}

module _ (sbi : SbInfo) (d : Dir) (v : DirOk sbi d) where
  abbrev ds : ℕ
  ds = sbi.s_dirsize

  -- The loop hits `i_size` at entry `count`.
  hits_end :
      (n k : ℕ)
      → k < v.per_page
      → (k * sbi.s_dirsize == cominix_last_byte d n) ≡ (n * v.per_page + k == v.count)
  hits_end n k lt = elim (Bool-cases (n == full sbi d v)) [
    | inr other ↦
        let ne : n ≢ full sbi d v = λ e. cc (other, (==_iff n (full sbi d v)).1 e) in
        rw (
          last_byte_full sbi d v n ne,
          ==_ne (k * ds) (page_size d)
              (λ e. absurd (omega (arith, entry_in_page sbi d v k lt, v.entry_pos))),
          ==_ne (n * v.per_page + k) v.count (elsewhere ne),
        )
    | inl here ↦
        let e : n ≡ full sbi d v = (==_iff n (full sbi d v)).0 here in
        ap (λ b. k * ds == b) (ap (cominix_last_byte d) e ∙ last_byte_end sbi d v)
        ∙ elim (Bool-cases (k == rest sbi d v)) [
          | inl same ↦
              let e' : k ≡ rest sbi d v = (==_iff k (rest sbi d v)).0 same in
              let reached : n * v.per_page + k ≡ v.count =
                ap₂ (λ a b. a * v.per_page + b) e e' ∙ split in
              ap (λ a. a * ds == rest sbi d v * ds) e'
              ∙ ==_self (rest sbi d v * ds)
              ∙ sym (ap (λ a. a == v.count) reached ∙ ==_self v.count)
          | inr apart ↦
              let ne : k ≢ rest sbi d v = λ z. cc (apart, (==_iff k (rest sbi d v)).1 z) in
              ==_ne (k * ds) (rest sbi d v * ds) (λ z. ne (times_inj k (rest sbi d v) z))
              ∙ sym (
                  ==_ne (n * v.per_page + k) v.count
                    (λ z. ne (omega (arith, z, split, ap (λ a. a * v.per_page) e))))
        ]
  ]
    where
      split : full sbi d v * v.per_page + rest sbi d v ≡ v.count
      split = div-add-mod' v.count v.per_page

      times_inj : (a b : ℕ) → a * ds ≡ b * ds → a ≡ b
      times_inj a b z =
          sym (mul-div_cancel a v.entry_pos) ∙ ap (λ c. c / ds) z ∙ mul-div_cancel b v.entry_pos

      elsewhere : n ≢ full sbi d v → n * v.per_page + k ≡ v.count → ⊥
      elsewhere ne e = elim (Bool-cases (ltb n (full sbi d v))) [
        | inl before ↦
            let lt' : n < full sbi d v = ltb→lt _ _ before in
            omega (
              arith,
              e,
              split,
              mul-le-mul_right {m = n + 1} {n = full sbi d v} v.per_page (omega arith),
              add-mul n 1 v.per_page,
            )
        | inr behind ↦
            let lt' : full sbi d v < n = ground arith in
            omega (
              arith,
              e,
              split,
              mod-lt v.count v.page_pos,
              mul-le-mul_right {m = full sbi d v + 1} {n = n} v.per_page (omega arith),
              add-mul (full sbi d v) 1 v.per_page,
            )
      ]

  -- There is a round for it.
  enough_rounds : v.count < (dir_pages d + 1) * v.per_page
  enough_rounds = elim (Bool-cases (ltb 0 (rest sbi d v))) [
    | inl more ↦
        let e = pages_more sbi d v (ltb→lt 0 (rest sbi d v) more) in
        omega (
          arith,
          div-add-mod' v.count v.per_page,
          mod-lt v.count v.page_pos,
          ap (λ n. (n + 1) * v.per_page) e,
          add-mul (full sbi d v) 1 v.per_page,
          add-mul (full sbi d v + 1) 1 v.per_page,
        )
    | inr no_more ↦
        let z : rest sbi d v ≡ 0 = ground arith in
        let e = pages_full sbi d v z in
        omega (
          arith,
          div-add-mod' v.count v.per_page,
          mod-lt v.count v.page_pos,
          ap (λ n. (n + 1) * v.per_page) e,
          add-mul (full sbi d v) 1 v.per_page,
        )
  ]

  module _ (name : List ℕ) (short : length name ≤ sbi.s_namelen) where
    abbrev pub room_at : ℕ → Bool → Room
    room_at j hit_end = got_it (place sbi d v j).0 (place sbi d v j).1 hit_end

    abbrev room : ℕ → Option Room
    room s =
        if s == v.count
        then some (room_at s true)
        else if slot_ino sbi d s == 0
        then some (room_at s false)
        else if namecompare sbi.s_namelen name (slot_name sbi d s)
        then some exists
        else none

    room_test-slot :
        (n k : ℕ)
        → k < v.per_page
        → room_test sbi d name n (k * sbi.s_dirsize) ≡ room (n * v.per_page + k)
    unfolding room_test
    room_test-slot n k lt =
        rw
          (hits_end n k lt, inumber-slot sbi d v n k lt, namecompare-slot sbi d v name short n k lt)
          (let e = place_of sbi d v name short n k lt in
            ap₂
              (λ (a b : Room).
                if n * v.per_page + k == v.count
                then some a
                else if slot_ino sbi d (n * v.per_page + k) == 0
                then some b
                else if namecompare sbi.s_namelen name (slot_name sbi d (n * v.per_page + k))
                then some exists
                else none)
              (ap (λ (q : ℕ × ℕ). got_it q.0 q.1 true) (sym e))
              (ap (λ (q : ℕ × ℕ). got_it q.0 q.1 false) (sym e)))

    find_room-slots : find_room sbi d name ≡ for_each ((dir_pages d + 1) * v.per_page) 0 room
    unfolding find_room
    find_room-slots =
        let z : 0 * v.per_page ≡ 0 = omega arith in
        for_each_congr (dir_pages d + 1) 0 0 _
          (λ n. for_each v.per_page 0 (λ k. room (n * v.per_page + k)))
          (λ n lt.
            let z' : 0 + n ≡ n = omega arith in
            rw (z', v.pages n, entries_of_page sbi d v)
              (for_each_congr v.per_page 0 0 _ _
                λ k lt'. let z'' : 0 + k ≡ k = omega arith in rw z'' (room_test-slot n k lt')))
        ∙ for_each-nested (dir_pages d + 1) v.per_page 0 room
        ∙ ap (λ i. for_each ((dir_pages d + 1) * v.per_page) i room) z

    -- Where no entry has the name, the room is the first entry that is not in use, or else behind the last.
    abbrev pub FindsRoom : Type 0
    FindsRoom =
        ((j : ℕ) × (j < v.count)
          × (slot_ino sbi d j ≡ 0)
          × (find_room sbi d name ≡ some (room_at j false)))
        ⊎ (find_room sbi d name ≡ some (room_at v.count true))

    module _ (absent : (k : ℕ) → k < v.count → hit sbi d name k ≡ false) where
      passed : (k : ℕ) → k < v.count → (slot_ino sbi d k == 0) ≡ false → room k ≡ none
      unfolding hit
      passed k lt e =
          let ne : (k == v.count) ≡ false = ==_ne k v.count (λ z. omega arith) in
          let other : namecompare sbi.s_namelen name (slot_name sbi d k) ≡ false =
            rw e at (absent k lt) in
          rw (ne, e, other)

      pub find_room-FindsRoom : FindsRoom
      find_room-FindsRoom = elim (first_true v.count (λ k. slot_ino sbi d k == 0)) [
        | inl (j, lt, e, before) ↦
            let ne : (j == v.count) ≡ false = ==_ne j v.count (λ z. omega arith) in
            inl (
              j,
              lt,
              (==_iff (slot_ino sbi d j) 0).0 e,
              find_room-slots
                  ∙ for_each-some ((dir_pages d + 1) * v.per_page) 0 j room (room_at j false)
                      (omega arith) (omega (arith, enough_rounds)) (rw (ne, e))
                      (λ k lo hi. passed k (omega arith) (before k hi)),
            )
        | inr all ↦ inr (
            find_room-slots
            ∙ for_each-some ((dir_pages d + 1) * v.per_page) 0 v.count room (room_at v.count true)
                (omega arith) (omega (arith, enough_rounds)) (rw (==_self v.count))
                (λ k lo hi. passed k hi (all k hi)))
      ]
