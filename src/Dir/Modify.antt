-- ===== src/Dir/Modify.antt =====
-- `cominix_delete_entry` and `cominix_set_link` of src/dir.c.
use cominix_fs.Prelude.{
  ℕ, zero, suc, ◌^◌, ◌<◌, ◌≤◌, ◌≡◌, ◌≢◌, refl, sym, ◌∙◌, true, false, inl, inr, some, List, arith,
  Bool-cases, ==_ne, length,
}
use native.Mathlib.Nat.{pow-suc}
use cominix_fs.Dir.{
  Dir, inode_bytes, namecompare, cominix_find_entry, cominix_delete_entry, cominix_set_link,
}
use cominix_fs.Dir.Change.{changed, changed-Rebinds, lookup_here, lookup_gone}
use cominix_fs.Dir.Unique.{IsUnique, Rebinds, hit_other}
use cominix_fs.Dir.Find.{find_entry-Finds}
use cominix_fs.Dir.Names.{IsName, namecompare_congr}
use cominix_fs.Dir.Number.{
  numbered, numbered-Changes, numbered-slot_ino, numbered-slot_name, renumber_ready,
}
use cominix_fs.Dir.Slots.{DirOk, slot_ino, slot_name, hit, place}
use cominix_fs.Fs.{SbInfo}

-- 0 fits in a word of any size
words_pos : (n : ℕ) → 0 < 256 ^ n
words_pos zero = omega arith
words_pos (suc n) = omega (arith, pow-suc 256 n, words_pos n)

pub hit_unused :
    (sbi : SbInfo) (d : Dir) (name : List ℕ) (j : ℕ)
    → slot_ino sbi d j ≡ 0
    → hit sbi d name j ≡ false
unfolding hit
hit_unused sbi d name j e = rw e

-- the entry is in use where it is found under a name
hit-used :
    (sbi : SbInfo) (d : Dir) (name : List ℕ) (j : ℕ)
    → hit sbi d name j ≡ true
    → slot_ino sbi d j ≢ 0
hit-used sbi d name j e z = cc (hit_unused sbi d name j z, e)

pub hit_in_use :
    (sbi : SbInfo) (d : Dir) (name : List ℕ) (j : ℕ)
    → slot_ino sbi d j ≢ 0
    → hit sbi d name j ≡ namecompare sbi.s_namelen name (slot_name sbi d j)
unfolding hit
hit_in_use sbi d name j ne = rw (==_ne (slot_ino sbi d j) 0 ne)

module _ (sbi : SbInfo) (d : Dir) (v : DirOk sbi d) (u : IsUnique sbi d v.count) (name : List ℕ)
    (nv : IsName sbi.s_namelen name) where
  -- Entry `j`, which has the name, gets another number.
  module _ (j : ℕ) (lt : j < v.count) (at_j : hit sbi d name j ≡ true) where
    alone : (k : ℕ) → k < v.count → k ≢ j → hit sbi d name k ≡ false
    alone k lt' ne = elim (Bool-cases (hit sbi d name k)) [
      | inl e ↦ absurd (ne (u name k j nv lt' lt e at_j))
      | inr e ↦ e
    ]

    before : (n : List ℕ) → IsName sbi.s_namelen n → name ≢ n → j < v.count → hit sbi d n j ≡ false
    before n w ne lt' = hit_other sbi d name n j nv w ne at_j

    unbinds :
        (other : List ℕ)
        → IsName sbi.s_namelen other
        → Rebinds sbi d (changed d d.i_size (numbered sbi d v j 0)) name 0 other
    unbinds other ov =
        let w = numbered-Changes sbi d v j 0 lt in
        let unused : (n : List ℕ)
            → hit sbi (changed d d.i_size (numbered sbi d v j 0)) n j ≡ false =
          λ n.
            hit_unused sbi (changed d d.i_size (numbered sbi d v j 0)) n j
              (numbered-slot_ino sbi d v j 0 (words_pos (inode_bytes sbi))) in
        changed-Rebinds sbi d v j d.i_size (numbered sbi d v j 0) w name nv (λ n w' ne. unused n)
          before alone u 0
          (lookup_gone sbi d v j d.i_size (numbered sbi d v j 0) w name nv (λ n w' ne. unused n)
            before alone (unused name))
          other ov

    module _ (ino : ℕ) (positive : ino ≢ 0) (small : ino < 256 ^ inode_bytes sbi) where
      abbrev e' : Dir
      e' = changed d d.i_size (numbered sbi d v j ino)

      same_hit : (n : List ℕ) → length n ≤ sbi.s_namelen → hit sbi e' n j ≡ hit sbi d n j
      same_hit n short =
          let ne : slot_ino sbi e' j ≢ 0 =
            λ z. positive (sym (numbered-slot_ino sbi d v j ino small) ∙ z) in
          hit_in_use sbi e' n j ne
          ∙ namecompare_congr sbi.s_namelen n (slot_name sbi e' j) (slot_name sbi d j) short
              (λ k lt'. numbered-slot_name sbi d v j ino k)
          ∙ sym (hit_in_use sbi d n j (hit-used sbi d name j at_j))

      after : (n : List ℕ) → IsName sbi.s_namelen n → name ≢ n → hit sbi e' n j ≡ false
      after n w ne = same_hit n w.0 ∙ hit_other sbi d name n j nv w ne at_j

      binds :
          (other : List ℕ)
          → IsName sbi.s_namelen other
          → Rebinds sbi d (changed d d.i_size (numbered sbi d v j ino)) name ino other
      binds other ov =
          let w = numbered-Changes sbi d v j ino lt in
          changed-Rebinds sbi d v j d.i_size (numbered sbi d v j ino) w name nv after before alone u
            ino
            (lookup_here sbi d v j d.i_size (numbered sbi d v j ino) w name nv after before alone
                (same_hit name nv.0 ∙ at_j)
              ∙ numbered-slot_ino sbi d v j ino small)
            other ov

-- Where an entry is found, it stands at one of the places.
found_place :
    (sbi : SbInfo) (d : Dir) (v : DirOk sbi d) (name : List ℕ) (de : ℕ × ℕ)
    → length name ≤ sbi.s_namelen
    → cominix_find_entry sbi d name ≡ some de
    → (j : ℕ) × (j < v.count) × (hit sbi d name j ≡ true) × (de ≡ place sbi d v j)
found_place sbi d v name de short found = elim (find_entry-Finds sbi d v name short) [
  | inl (j, lt, e, first, run, by_name, looked) ↦
      (j, lt, e, some_eq de (place sbi d v j) (sym found ∙ run))
  | inr (all, run, by_name, looked) ↦ absurd (cc)
]
  where
    some_eq : (a b : ℕ × ℕ) → some a ≡ some b → a ≡ b
    some_eq a b e = cc

module _ (prepare : Dir → ℕ → ℕ → ℕ) (dirsync : Dir → ℕ) (page_error : ℕ → ℕ) (sbi : SbInfo)
    (ready : (e : Dir) (pos : ℕ) → prepare e pos sbi.s_dirsize ≡ 0) (d : Dir) (v : DirOk sbi d)
    (u : IsUnique sbi d v.count) (name : List ℕ) (nv : IsName sbi.s_namelen name) (de : ℕ × ℕ)
    (found : cominix_find_entry sbi d name ≡ some de) (other : List ℕ)
    (ov : IsName sbi.s_namelen other) where
  -- In a well-formed directory whose entries in use have different names, and for a kernel that
  -- prepares every write, deleting the entry that is found under a name succeeds up to the sync.
  -- Afterwards the name leads nowhere, every other name leads where it led before, and the
  -- directory is well formed with different names again.
  pub delete_entry-Rebinds :
      let r = cominix_delete_entry prepare dirsync page_error sbi de d in
      (r.0 ≡ dirsync r.1) × Rebinds sbi d r.1 name 0 other
  unfolding cominix_delete_entry
  delete_entry-Rebinds =
      let (j, lt, at_j, e) = found_place sbi d v name de nv.0 found in
      rw (e, renumber_ready sbi d v j 0 prepare dirsync page_error lt ready)
        (refl, unbinds sbi d v u name nv j lt at_j other ov)

  -- In a well-formed directory whose entries in use have different names, for a number other than 0
  -- that an entry can hold, and a kernel that prepares every write, setting the link of the entry
  -- that is found under a name succeeds up to the sync. Afterwards the name leads to the number,
  -- every other name leads where it led before, and the directory is well formed with different
  -- names again.
  pub set_link-Rebinds :
      (ino : ℕ)
      → ino ≢ 0
      → ino < 256 ^ inode_bytes sbi
      → let r = cominix_set_link prepare dirsync page_error sbi de ino d in
        (r.0 ≡ dirsync r.1) × Rebinds sbi d r.1 name ino other
  unfolding cominix_set_link
  set_link-Rebinds ino positive small =
      let (j, lt, at_j, e) = found_place sbi d v name de nv.0 found in
      rw (e, renumber_ready sbi d v j ino prepare dirsync page_error lt ready)
        (refl, binds sbi d v u name nv j lt at_j ino positive small other ov)
