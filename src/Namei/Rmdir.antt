-- ===== src/Namei/Rmdir.antt =====
-- `cominix_rmdir` of src/namei.c.
use cominix_fs.BitOps.{BitOps}
use cominix_fs.Dir.{Dir, cominix_find_entry, cominix_empty_dir}
use cominix_fs.Dir.Names.{IsName}
use cominix_fs.Dir.Slots.{DirOk}
use cominix_fs.Dir.Unique.{IsUnique, Rebinds}
use cominix_fs.Fs.{Fs, ok}
use cominix_fs.Namei.{Tree, Vfs, dir_of, dec_link_count, cominix_rmdir}
use cominix_fs.Namei.Links.{nlink, dir_of-dec, nlink-dec, unlink-Rebinds}
use cominix_fs.Prelude.{
  ℕ, ◌-◌, ◌^◌, ◌<◌, ◌≤◌, ◌≡◌, ◌≢◌, sym, subst, ◌∙◌, true, some, List, arith, ◌==◌, ==_self, ==_ne,
  if◌then◌else◌,
}

module _ (ops : BitOps) (k : Vfs) (s : Fs) (dir : ℕ) (name : List ℕ) (t : Tree)
    (v : DirOk s.sb (dir_of (t dir))) (u : IsUnique s.sb (dir_of (t dir)) v.count)
    (nv : IsName s.sb.s_namelen name)
    (ready : (e : Dir) (pos : ℕ) → k.prepare e pos s.sb.s_dirsize ≡ 0)
    (synced : (e : Dir) → k.dirsync e ≡ 0) (ino : ℕ) (other : List ℕ)
    (ov : IsName s.sb.s_namelen other) where
  -- In a well-formed directory with different names, for a name that is found, another inode that
  -- `cominix_empty_dir` finds empty and that has two links or more, a link of the directory, counts
  -- below 2 ^ 32, and a kernel that prepares every write and syncs without an error,
  -- `cominix_rmdir` succeeds. Afterwards the name leads nowhere, every other name leads where it
  -- led before, the directory is well formed again, the inode has two links less, the directory one
  -- less, and every other inode as many as before.
  pub rmdir-Rebinds :
      (de : ℕ × ℕ)
      → cominix_find_entry s.sb (dir_of (t dir)) name ≡ some de
      → cominix_empty_dir s.sb (dir_of (t ino)) ≡ true
      → ino ≢ dir
      → 2 ≤ nlink t ino
      → nlink t ino < 2 ^ 32
      → 1 ≤ nlink t dir
      → nlink t dir < 2 ^ 32
      → (t' : Tree) × (cominix_rmdir ops k name dir ino t s ≡ ok (0, t') s)
        × Rebinds s.sb (dir_of (t dir)) (dir_of (t' dir)) name 0 other
        × ((m : ℕ)
            → nlink t' m
              ≡ (if m == ino then nlink t m - 2 else if m == dir then nlink t m - 1 else nlink t m))
  unfolding cominix_rmdir
  rmdir-Rebinds de found empty apart two few one few' =
      let (t₁, run, binds, counts) =
        unlink-Rebinds ops k s dir name t v u nv ready synced ino other ov de found (omega arith)
          few in
      let at_ino : nlink t₁ ino ≡ nlink t ino - 1 = rw (==_self ino) at (counts ino) in
      let at_dir : nlink t₁ dir ≡ nlink t dir =
        rw (==_ne dir ino (λ e. apart (sym e))) at (counts dir) in
      let t₂ = dec_link_count dir t₁ in
      let counts₂ = nlink-dec dir t₁ (omega (arith, at_dir)) (omega (arith, at_dir)) in
      let at_ino₂ : nlink t₂ ino ≡ nlink t₁ ino = rw (==_ne ino dir apart) at (counts₂ ino) in
      let t₃ = dec_link_count ino t₂ in
      let same = dir_of-dec ino t₂ dir ∙ dir_of-dec dir t₁ dir in
      (
        t₃,
        rw (empty, run),
        subst (λ d. Rebinds s.sb (dir_of (t dir)) d name 0 other) (sym same) binds,
        λ m.
            nlink-dec ino t₂ (omega (arith, at_ino₂, at_ino)) (omega (arith, at_ino₂, at_ino)) m
            ∙ ground (arith, counts₂ m, counts m, apart),
      )
