-- ===== src/Dir/Insert.antt =====
-- `cominix_add_link` of src/dir.c.
use native.Mathlib.Nat.{mul-le-mul_right, add-mul}
use cominix_fs.Prelude.{
  ℕ, ◌+◌, ◌*◌, ◌/◌, ◌%◌, ◌^◌, ◌<◌, ◌≤◌, ◌≡◌, ◌≢◌, sym, ◌∙◌, true, false, inl, inr, Option, none,
  some, List, arith, lt→ltb, le→ltb, length,
}
use cominix_fs.Dir.{
  Dir, got_it, page_size, inode_bytes, namecompare, find_room, dir_commit_chunk, cominix_find_entry,
  cominix_add_link,
}
use cominix_fs.Dir.Change.{changed, Changes, changed-Rebinds, lookup_here}
use cominix_fs.Dir.Unique.{IsUnique, Rebinds}
use cominix_fs.Dir.Filled.{filled, filled_outside, filled_ino, filled_name, fill_entry-filled}
use cominix_fs.Dir.Find.{find_entry-Finds}
use cominix_fs.Dir.Modify.{hit_unused, hit_in_use}
use cominix_fs.Dir.Names.{IsName, namecompare_self, namecompare_other}
use cominix_fs.Dir.Number.{numbered, place_address, put_bytes-entry_start}
use cominix_fs.Dir.Search.{find_room-FindsRoom}
use cominix_fs.Dir.Slots.{DirOk, slot_ino, slot_name, hit, page_large}
use cominix_fs.Disk.{Disk, to_le}
use cominix_fs.Disk.Flat.{byte_at-flat_write_apart}
use cominix_fs.Disk.Words.{length-to_le}
use cominix_fs.Fs.{SbInfo}

-- no entry has a name that is not found
all_miss :
    (sbi : SbInfo) (d : Dir) (v : DirOk sbi d) (name : List ℕ)
    → length name ≤ sbi.s_namelen
    → cominix_find_entry sbi d name ≡ none
    → (k : ℕ) → k < v.count
    → hit sbi d name k ≡ false
all_miss sbi d v name short missing k lt = elim (find_entry-Finds sbi d v name short) [
  | inl (j, lt', e, first, run, by_name, looked) ↦ absurd (cc)
  | inr (all, run, by_name, looked) ↦ all k lt
]

module _ (sbi : SbInfo) (d : Dir) (v : DirOk sbi d) (u : IsUnique sbi d v.count) (name : List ℕ)
    (nv : IsName sbi.s_namelen name) (absent : (k : ℕ) → k < v.count → hit sbi d name k ≡ false)
    (ino : ℕ) (positive : ino ≢ 0) (small : ino < 256 ^ inode_bytes sbi) where
  -- The entry is filled on disk `m`, which is the directory's but for the entry.
  module _ (j size : ℕ) (m : Disk) (w : Changes sbi d v j size (filled sbi d v j name nv ino m))
      (free : j < v.count → slot_ino sbi d j ≡ 0) where
    abbrev e : Dir
    e = changed d size (filled sbi d v j name nv ino m)

    hit_name : (n : List ℕ) → hit sbi e n j ≡ namecompare sbi.s_namelen n (slot_name sbi e j)
    hit_name n =
        hit_in_use sbi e n j (λ z. positive (sym (filled_ino sbi d v j name nv ino m small) ∙ z))

    others_miss : (n : List ℕ) → IsName sbi.s_namelen n → name ≢ n → hit sbi e n j ≡ false
    others_miss n nv' ne =
        hit_name n
        ∙ namecompare_other sbi.s_namelen name nv (slot_name sbi e j)
            (filled_name sbi d v j name nv ino m) n nv' ne

    binds_new :
        (other : List ℕ)
        → IsName sbi.s_namelen other
        → Rebinds sbi d (changed d size (filled sbi d v j name nv ino m)) name ino other
    binds_new other ov =
        let found : hit sbi e name j ≡ true =
          hit_name name
          ∙ namecompare_self sbi.s_namelen name nv (slot_name sbi e j)
              (filled_name sbi d v j name nv ino m) in
        let before : (n : List ℕ)
            → IsName sbi.s_namelen n
            → name ≢ n
            → j < v.count
            → hit sbi d n j ≡ false =
          λ n nv' ne lt. hit_unused sbi d n j (free lt) in
        let alone : (k : ℕ) → k < v.count → k ≢ j → hit sbi d name k ≡ false =
          λ k lt ne. absent k lt in
        changed-Rebinds sbi d v j size (filled sbi d v j name nv ino m) w name nv others_miss before
          alone u ino
          (lookup_here sbi d v j size (filled sbi d v j name nv ino m) w name nv others_miss before
              alone found
            ∙ filled_ino sbi d v j name nv ino m small)
          other ov

  -- in a free entry
  inside-Changes :
      (j : ℕ) → j < v.count → Changes sbi d v j d.i_size (filled sbi d v j name nv ino d.mapping)
  inside-Changes j lt = record {
    count' = v.count;
    grows = omega arith;
    inside = lt;
    only = λ i lo hi. absurd (omega arith);
    sized = v.sized;
    bytes = filled_outside sbi d v j name nv ino d.mapping;
  }

  -- behind the last entry, whose number is set to 0 first
  end-Changes :
      Changes sbi d v v.count
        (v.count * sbi.s_dirsize + sbi.s_dirsize)
        (filled sbi d v v.count name nv ino (numbered sbi d v v.count 0))
  end-Changes = record {
    count' = v.count + 1;
    grows = omega arith;
    inside = omega arith;
    only = λ i lo hi. omega arith;
    sized = omega (arith, add-mul v.count 1 sbi.s_dirsize);
    bytes = λ c out.
        filled_outside sbi d v v.count name nv ino (numbered sbi d v v.count 0) c out
        ∙ byte_at-flat_write_apart (page_size d) (page_large sbi d v) d.mapping
            (v.count * sbi.s_dirsize) (to_le (inode_bytes sbi) 0) c
            (ground (arith, length-to_le (inode_bytes sbi) 0, v.fits));
  }

module _ (prepare : Dir → ℕ → ℕ → ℕ) (dirsync : Dir → ℕ) (page_error : ℕ → ℕ) (sbi : SbInfo)
    (ready : (e : Dir) (pos : ℕ) → prepare e pos sbi.s_dirsize ≡ 0) (d : Dir) (v : DirOk sbi d)
    (u : IsUnique sbi d v.count) (name : List ℕ) (nv : IsName sbi.s_namelen name)
    (missing : cominix_find_entry sbi d name ≡ none) (ino : ℕ) (positive : ino ≢ 0)
    (small : ino < 256 ^ inode_bytes sbi) where
  abbrev run : Option (ℕ × Dir)
  run = cominix_add_link prepare dirsync page_error sbi name ino d

  runs_inside :
      (j : ℕ)
      → j < v.count
      → find_room sbi d name ≡ some (got_it (j / v.per_page) (j % v.per_page * sbi.s_dirsize) false)
      → let e = changed d d.i_size (filled sbi d v j name nv ino d.mapping) in
        run ≡ some (dirsync e, e)
  unfolding cominix_add_link dir_commit_chunk
  runs_inside j lt room =
      let inside : j * sbi.s_dirsize + sbi.s_dirsize ≤ d.i_size = omega (
        arith,
        v.sized,
        mul-le-mul_right {m = j + 1} {n = v.count} sbi.s_dirsize (omega arith),
        add-mul j 1 sbi.s_dirsize,
      ) in
      rw (
        room,
        cominix_add_link,
        place_address sbi d v j,
        ready d (j * sbi.s_dirsize),
        fill_entry-filled sbi d v j name nv ino d,
        le→ltb d.i_size (j * sbi.s_dirsize + sbi.s_dirsize) inside,
      )

  runs_at_end :
      find_room sbi d name
        ≡ some (got_it (v.count / v.per_page) (v.count % v.per_page * sbi.s_dirsize) true)
      → let e =
          changed d
            (v.count * sbi.s_dirsize + sbi.s_dirsize)
            (filled sbi d v v.count name nv ino (numbered sbi d v v.count 0)) in
        run ≡ some (dirsync e, e)
  unfolding cominix_add_link dir_commit_chunk
  runs_at_end room =
      let d₁ = record d { mapping = numbered sbi d v v.count 0 } in
      let short : length (to_le (inode_bytes sbi) 0) ≤ sbi.s_dirsize =
        omega (arith, length-to_le (inode_bytes sbi) 0, v.fits) in
      let grows : d.i_size < v.count * sbi.s_dirsize + sbi.s_dirsize =
        omega (arith, v.sized, v.entry_pos) in
      rw (
        room,
        cominix_add_link,
        put_bytes-entry_start sbi d v v.count d.mapping (to_le (inode_bytes sbi) 0) short,
        place_address sbi d v v.count,
        ready d₁ (v.count * sbi.s_dirsize),
        fill_entry-filled sbi d v v.count name nv ino d₁,
        lt→ltb d.i_size (v.count * sbi.s_dirsize + sbi.s_dirsize) grows,
      )

  -- In a well-formed directory whose entries in use have different names, for a name that is not
  -- found, a number other than 0 that an entry can hold, and a kernel that prepares every write,
  -- `cominix_add_link` succeeds up to the sync. Afterwards the name leads to the number, every
  -- other name leads where it led before, and the directory is well formed with different names
  -- again.
  pub add_link-Rebinds :
      (other : List ℕ)
      → IsName sbi.s_namelen other
      → (e : Dir) × (cominix_add_link prepare dirsync page_error sbi name ino d
          ≡ some (dirsync e, e))
        × Rebinds sbi d e name ino other
  add_link-Rebinds other ov =
      let absent = all_miss sbi d v name nv.0 missing in
      elim (find_room-FindsRoom sbi d v name nv.0 absent) [
        | inl (j, lt, free, room) ↦ (
          changed d d.i_size (filled sbi d v j name nv ino d.mapping),
          runs_inside j lt room,
          binds_new sbi d v u name nv absent ino positive small j d.i_size d.mapping
              (inside-Changes sbi d v u name nv absent ino positive small j lt) (λ z. free) other
              ov,
        )
        | inr room ↦ (
          changed d (v.count * sbi.s_dirsize + sbi.s_dirsize)
              (filled sbi d v v.count name nv ino (numbered sbi d v v.count 0)),
          runs_at_end room,
          binds_new sbi d v u name nv absent ino positive small v.count
              (v.count * sbi.s_dirsize + sbi.s_dirsize) (numbered sbi d v v.count 0)
              (end-Changes sbi d v u name nv absent ino positive small) (λ lt. absurd (omega arith))
              other ov,
        )
      ]
