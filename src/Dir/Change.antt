-- ===== src/Dir/Change.antt =====
-- What the names of a directory of src/dir.c are after one of its entries is overwritten.
use cominix_fs.Prelude.{
  ℕ, ◌+◌, ◌*◌, ◌<◌, ◌≤◌, ◌≡◌, ◌≢◌, sym, ap, ◌∙◌, true, false, ◌⊎◌, inl, inr, some, List, arith,
  Bool-cases, ltb, ltb→lt, ◌==◌, ==_iff, if◌then◌else◌, length,
}
use native.Mathlib.Nat.{mul-le-mul_right, add-mul}
use cominix_fs.Dir.{Dir, page_size, inode_bytes, cominix_inode_by_name}
use cominix_fs.Dir.Find.{lookup, or_zero, inode_by_name-lookup}
use cominix_fs.Dir.Loop.{first_true, for_each_hit, for_each_miss}
use cominix_fs.Dir.Names.{IsName, namecompare_congr}
use cominix_fs.Dir.Unique.{IsUnique, same_name, same_name-eq, same_name-ne, Rebinds}
use cominix_fs.Dir.Slots.{DirOk, slot_ino, slot_name, hit}
use cominix_fs.Disk.{Disk, byte_at, from_le}
use cominix_fs.Disk.Flat.{flat_read_congr}
use cominix_fs.Fs.{SbInfo}

-- Entry `j` is overwritten, or put behind the last of `count`.
abbrev pub changed : Dir → ℕ → Disk → Dir
changed d size m = record d { i_size = size; mapping = m }

pub record Changes (sbi : SbInfo) (d : Dir) (v : DirOk sbi d) (j size : ℕ) (m : Disk) : Type 0 where
  pub count' : ℕ
  pub grows : v.count ≤ count'
  pub inside : j < count'
  pub only : (i : ℕ) → v.count ≤ i → i < count' → i ≡ j
  pub sized : size ≡ count' * sbi.s_dirsize
  pub bytes :
      (c : ℕ)
      → (c < j * sbi.s_dirsize) ⊎ (j * sbi.s_dirsize + sbi.s_dirsize ≤ c)
      → byte_at (page_size d) m c ≡ byte_at (page_size d) d.mapping c

module _ (sbi : SbInfo) (d : Dir) (v : DirOk sbi d) (j size : ℕ) (m : Disk)
    (w : Changes sbi d v j size m) where
  abbrev d' : Dir
  d' = changed d size m

  pub changed-DirOk : DirOk sbi (changed d size m)
  changed-DirOk = record {
    per_page = v.per_page;
    count = w.count';
    entry_pos = v.entry_pos;
    page_pos = v.page_pos;
    paged = v.paged;
    sized = w.sized;
    pages = v.pages;
    fits = v.fits;
  }

  apart :
      (i c : ℕ)
      → i ≢ j
      → i * sbi.s_dirsize ≤ c
      → c < i * sbi.s_dirsize + sbi.s_dirsize
      → (c < j * sbi.s_dirsize) ⊎ (j * sbi.s_dirsize + sbi.s_dirsize ≤ c)
  apart i c ne lo hi = elim (Bool-cases (ltb i j)) [
    | inl e ↦ inl (
        omega (
          arith,
          mul-le-mul_right {m = i + 1} {n = j} sbi.s_dirsize (omega (arith, ltb→lt i j e)),
          add-mul i 1 sbi.s_dirsize,
        ))
    | inr e ↦
        let above : j < i = ground arith in
        inr (
          omega (
            arith,
            mul-le-mul_right {m = j + 1} {n = i} sbi.s_dirsize (omega arith),
            add-mul j 1 sbi.s_dirsize,
          ))
  ]

  pub slot_ino_other : (i : ℕ) → i ≢ j → slot_ino sbi d' i ≡ slot_ino sbi d i
  slot_ino_other i ne = ap from_le (
      flat_read_congr (page_size d) m d.mapping (i * sbi.s_dirsize) (inode_bytes sbi)
        λ c lo hi. w.bytes c (apart i c ne lo (omega (arith, v.fits))))

  pub hit_kept :
      (name : List ℕ) (i : ℕ)
      → length name ≤ sbi.s_namelen
      → i ≢ j
      → hit sbi d' name i ≡ hit sbi d name i
  unfolding hit
  hit_kept name i short ne =
      let same =
        namecompare_congr sbi.s_namelen name (slot_name sbi d' i) (slot_name sbi d i) short λ k lt.
          w.bytes (i * sbi.s_dirsize + inode_bytes sbi + k)
            (apart i _ ne (omega arith) (omega (arith, v.fits))) in
      rw (slot_ino_other i ne, same)

  -- the other entries were there before
  in_count : (k : ℕ) → k < w.count' → k ≢ j → k < v.count
  in_count k lt ne = elim (Bool-cases (ltb k v.count)) [
    | inl e ↦ ltb→lt k v.count e
    | inr e ↦ let past : v.count ≤ k = ground arith in absurd (ne (w.only k past lt))
  ]

  -- Where `j` is not in use under the name before and after, the name leads to the same number.
  lookup_kept :
      (name : List ℕ)
      → length name ≤ sbi.s_namelen
      → hit sbi d' name j ≡ false
      → (j < v.count → hit sbi d name j ≡ false)
      → lookup sbi d' w.count' name ≡ lookup sbi d v.count name
  unfolding lookup
  lookup_kept name short after before = elim (first_true v.count (hit sbi d name)) [
    | inl (i, lt, e, first) ↦
        let ne : i ≢ j = λ z. cc (before (omega arith), ap (hit sbi d name) z, e) in
        for_each_hit w.count' (hit sbi d' name) (slot_ino sbi d') i (omega (arith, w.grows))
          (hit_kept name i short ne ∙ e) (λ k lt'. kept_false k (first k lt'))
        ∙ ap some (slot_ino_other i ne)
        ∙ sym (for_each_hit v.count (hit sbi d name) (slot_ino sbi d) i lt e first)
    | inr all ↦
        for_each_miss w.count' (hit sbi d' name) (slot_ino sbi d') (λ k lt'.
          elim (Bool-cases (ltb k v.count)) [
            | inl e ↦ kept_false k (all k (ltb→lt k v.count e))
            | inr e ↦
                let past : v.count ≤ k = ground arith in
                ap (hit sbi d' name) (w.only k past lt') ∙ after
          ])
        ∙ sym (for_each_miss v.count (hit sbi d name) (slot_ino sbi d) all)
  ]
    where
      kept_false : (k : ℕ) → hit sbi d name k ≡ false → hit sbi d' name k ≡ false
      kept_false k e = elim (Bool-cases (k == j)) [
        | inl same ↦ ap (hit sbi d' name) ((==_iff k j).0 same) ∙ after
        | inr ne ↦ hit_kept name k short (λ z. cc (ne, (==_iff k j).1 z)) ∙ e
      ]

  -- The entry has no name but `name` before and after, and no other entry has it.
  module _ (name : List ℕ) (nv : IsName sbi.s_namelen name)
      (owned : (n : List ℕ)
        → IsName sbi.s_namelen n
        → name ≢ n
        → hit sbi (changed d size m) n j ≡ false)
      (owned_before : (n : List ℕ)
        → IsName sbi.s_namelen n
        → name ≢ n
        → j < v.count
        → hit sbi d n j ≡ false)
      (alone : (k : ℕ) → k < v.count → k ≢ j → hit sbi d name k ≡ false) where
    pub lookup_others :
        (n : List ℕ)
        → IsName sbi.s_namelen n
        → name ≢ n
        → cominix_inode_by_name sbi (changed d size m) n ≡ cominix_inode_by_name sbi d n
    unfolding changed-DirOk
    lookup_others n w' ne =
        inode_by_name-lookup sbi d' changed-DirOk n w'.0
        ∙ ap or_zero (lookup_kept n w'.0 (owned n w' ne) (owned_before n w' ne))
        ∙ sym (inode_by_name-lookup sbi d v n w'.0)

    alone_after : (k : ℕ) → k < w.count' → k ≢ j → hit sbi d' name k ≡ false
    alone_after k lt ne = hit_kept name k nv.0 ne ∙ alone k (in_count k lt ne) ne

    pub lookup_here :
        hit sbi (changed d size m) name j ≡ true
        → cominix_inode_by_name sbi (changed d size m) name ≡ slot_ino sbi (changed d size m) j
    unfolding lookup changed-DirOk
    lookup_here e =
        inode_by_name-lookup sbi d' changed-DirOk name nv.0
        ∙ ap or_zero (
            for_each_hit w.count' (hit sbi d' name) (slot_ino sbi d') j w.inside e
              (λ k lt. alone_after k (omega (arith, w.inside)) (λ z. omega arith)))

    pub lookup_gone :
        hit sbi (changed d size m) name j ≡ false
        → cominix_inode_by_name sbi (changed d size m) name ≡ 0
    unfolding lookup changed-DirOk
    lookup_gone e =
        inode_by_name-lookup sbi d' changed-DirOk name nv.0
        ∙ ap or_zero (
            for_each_miss w.count' (hit sbi d' name) (slot_ino sbi d') (λ k lt.
              elim (Bool-cases (k == j)) [
                | inl same ↦ ap (hit sbi d' name) ((==_iff k j).0 same) ∙ e
                | inr ne ↦ alone_after k lt (λ z. cc (ne, (==_iff k j).1 z))
              ]))

    -- an entry in use at `j` has the name, and the others do not
    only_here :
        (n : List ℕ)
        → IsName sbi.s_namelen n
        → hit sbi d' n j ≡ true
        → (k : ℕ) → k < w.count'
        → hit sbi d' n k ≡ true
        → k ≡ j
    only_here n w' at_j k lt at_k = elim (Bool-cases (k == j)) [
      | inl same ↦ (==_iff k j).0 same
      | inr ne ↦
          let ne' : k ≢ j = λ z. cc (ne, (==_iff k j).1 z) in
          let other : name ≢ n → ⊥ = λ d_ne. cc (owned n w' d_ne, at_j) in
          absurd (other λ same. cc (alone_after k lt ne', ap (λ x. hit sbi d' x k) same, at_k))
    ]

    pub changed-IsUnique : IsUnique sbi d v.count → IsUnique sbi (changed d size m) w.count'
    changed-IsUnique u n i k w' li lk hi hk = elim (Bool-cases (i == j)) [
      | inl same ↦
          let e : i ≡ j = (==_iff i j).0 same in
          e ∙ sym (only_here n w' (ap (hit sbi d' n) (sym e) ∙ hi) k lk hk)
      | inr ne ↦ elim (Bool-cases (k == j)) [
        | inl same ↦
            let e : k ≡ j = (==_iff k j).0 same in
            only_here n w' (ap (hit sbi d' n) (sym e) ∙ hk) i li hi ∙ sym e
        | inr ne' ↦
            let i_ne : i ≢ j = λ z. cc (ne, (==_iff i j).1 z) in
            let k_ne : k ≢ j = λ z. cc (ne', (==_iff k j).1 z) in
            u n i k w' (in_count i li i_ne) (in_count k lk k_ne) (sym (hit_kept n i w'.0 i_ne) ∙ hi)
              (sym (hit_kept n k w'.0 k_ne) ∙ hk)
      ]
    ]

    pub changed-Rebinds :
        IsUnique sbi d v.count
        → (ino : ℕ) → cominix_inode_by_name sbi (changed d size m) name ≡ ino
        → (other : List ℕ) → IsName sbi.s_namelen other
        → Rebinds sbi d (changed d size m) name ino other
    unfolding changed-DirOk
    changed-Rebinds u ino here other ov = (by_name, (changed-DirOk, changed-IsUnique u))
      where
        by_name :
            cominix_inode_by_name sbi (changed d size m) other
            ≡ (if same_name name other then ino else cominix_inode_by_name sbi d other)
        by_name = elim (Bool-cases (same_name name other)) [
          | inl e ↦
              rw e (ap (cominix_inode_by_name sbi d') (sym (same_name-eq name other e)) ∙ here)
          | inr e ↦ rw e (lookup_others other ov (same_name-ne name other e))
        ]
