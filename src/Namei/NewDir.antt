-- ===== src/Namei/NewDir.antt =====
-- `cominix_mkdir` of src/namei.c in a well-formed directory: the number from the bitmap, the new
-- directory and the name in the old one.
use cominix_fs.BitOps.{BitOps}
use cominix_fs.Bitmap.{new_ino, cominix_new_inode}
use cominix_fs.Bitmap.Inodes.{ImapOk, used, cominix_new_inode-NumberTaken}
use cominix_fs.Dir.{Dir, inode_bytes, cominix_find_entry}
use cominix_fs.Dir.Names.{IsName}
use cominix_fs.Dir.Slots.{DirOk}
use cominix_fs.Dir.Unique.{IsUnique, Rebinds}
use cominix_fs.Fs.{Fs, ok}
use cominix_fs.Inode.{directory}
use cominix_fs.Namei.{Node, Tree, Vfs, dir_of, mkdir_inode, cominix_mkdir, fail}
use cominix_fs.Namei.Links.{nlink, update_self, update_other}
use cominix_fs.Prelude.{
  ℕ, ◌+◌, ◌^◌, ◌<◌, ◌≤◌, ◌≡◌, ◌≢◌, sym, ap, subst, ◌∙◌, true, false, ◌⊎◌, inl, inr, none, some,
  List, arith, Bool-cases, ◌==◌, ==_iff, if◌then◌else◌,
}
use cominix_fs.Namei.Born.{
  IsBorn, new_node, new_tree, new_node-IsBorn, make_inode-run, make_inode-full,
}
use cominix_fs.Namei.Given.{MadeDir, mkdir_inode-MadeDir}

module _ (ops : BitOps) (k : Vfs) (s : Fs) (im : ImapOk s) (given : k.given ≡ true) (dir : ℕ)
    (t : Tree) (name : List ℕ) (mode : ℕ)
    (ready : (e : Dir) (pos len : ℕ) → k.prepare e pos len ≡ 0)
    (synced : (e : Dir) → k.dirsync e ≡ 0) (grabbed : (j : ℕ) → k.grab j ≡ 0)
    (is_dir : k.file_type (16384 + mode) ≡ directory)
    (shift : (k.born (t dir) (16384 + mode)).page_shift ≡ (t dir).page_shift)
    (pages : (j : ℕ) → (k.born (t dir) (16384 + mode)).page_ok j ≡ true)
    (v : DirOk s.sb (dir_of (t dir))) (u : IsUnique s.sb (dir_of (t dir)) v.count)
    (two : 2 ≤ v.per_page) (three : 3 ≤ s.sb.s_namelen) (nv : IsName s.sb.s_namelen name)
    (missing : cominix_find_entry s.sb (dir_of (t dir)) name ≡ none) (dir_positive : dir ≢ 0)
    (dir_used : used s dir ≡ true) (dir_in_range : dir ≤ s.sb.s_ninodes)
    (numbers : s.sb.s_ninodes < 256 ^ inode_bytes s.sb) (few : nlink t dir + 1 < 2 ^ 32)
    (other : List ℕ) (ov : IsName s.sb.s_namelen other) where
  run_with :
      (ino : ℕ) (s' : Fs)
      → s' ≡ record s { s_imap = s'.s_imap }
      → cominix_new_inode ops k.given s ≡ ok (new_ino ino) s'
      → ino ≢ 0
      → ino ≤ s.sb.s_ninodes
      → used s ino ≡ false
      → (t' : Tree) × (cominix_mkdir ops k name dir mode t s
          ≡ ok (record { err = 0; d_inode = some ino; tree = t' }) s')
        × MadeDir s dir ino name other t t'
  unfolding cominix_mkdir
  run_with ino s' eq run positive within free =
      let s₁ : Fs = record s { s_imap = s'.s_imap } in
      let t₁ = new_tree ops k dir mode t is_dir ino in
      let apart : ino ≢ dir = λ z. cc (free, dir_used, ap (used s) z) in
      let at_dir : t₁ dir ≡ t dir =
        update_other ino dir (λ old. new_node ops k dir mode t is_dir ino) t (λ z. apart (sym z)) in
      let at_ino : t₁ ino ≡ new_node ops k dir mode t is_dir ino =
        update_self ino (λ old. new_node ops k dir mode t is_dir ino) t in
      let (v₁, u₁) =
        subst (λ (n : Node). (w : DirOk s.sb (dir_of n)) × IsUnique s.sb (dir_of n) w.count)
          (sym at_dir) (v, u) in
      let (fresh, own, (w, empty, paged)) =
        subst (IsBorn s₁ ino) (sym at_ino)
          (new_node-IsBorn ops k dir mode t is_dir s₁ v two shift pages ino) in
      let (t', run', (binds, is_new, counts)) =
        mkdir_inode-MadeDir ops k s₁ dir name ready synced grabbed three nv other ov dir_positive
          (omega arith) t₁ v₁ u₁
          (ap (λ (n : Node). cominix_find_entry s.sb (dir_of n) name) at_dir ∙ missing)
          (subst (λ (n : Node). n.inode.i_nlink + 1 < 2 ^ 32) (sym at_dir) few) ino apart fresh
          positive (omega arith) w empty paged own in
      (
        t',
        rw (make_inode-run ops k dir mode t is_dir s s' ino run) (
            subst
              (λ x.
                mkdir_inode ops k name dir ino t₁ x
                ≡ ok (record { err = 0; d_inode = some ino; tree = t' }) x)
              (sym eq) run'),
        (
          subst (λ (n : Node). Rebinds s.sb (dir_of n) (dir_of (t' dir)) name ino other) at_dir
              binds,
          is_new,
          λ m. counts m ∙ old_counts ino m,
        ),
      )
    where
      old_counts :
          (ino m : ℕ)
          → (if m == ino
              then 2
              else if m == dir
              then nlink (new_tree ops k dir mode t is_dir ino) m + 1
              else nlink (new_tree ops k dir mode t is_dir ino) m)
            ≡ (if m == ino then 2 else if m == dir then nlink t m + 1 else nlink t m)
      old_counts ino m = elim (Bool-cases (m == ino)) [
        | inl e ↦ rw e
        | inr e ↦
            let ne : m ≢ ino = λ z. cc (e, (==_iff m ino).1 z) in
            rw e (
              ap (λ (n : Node). if m == dir then n.inode.i_nlink + 1 else n.inode.i_nlink)
                (update_other ino m (λ old. new_node ops k dir mode t is_dir ino) t ne))
      ]

  -- On well-formed inode maps, in a well-formed directory with different names whose own number is
  -- positive, in range and in use, for a name that is not found there, with pages of two entries or
  -- more, names of 3 bytes or more and numbers that fit into an entry, with fewer links than a
  -- count can hold, and for a kernel that gives inodes and pages of the same size, prepares every
  -- write and syncs without an error: `cominix_mkdir` either succeeds or fails for lack of inode
  -- numbers with every inode as it was and no number free. Where it succeeds, the new number was
  -- free and is the only one that is newly in use; the name leads to it in the old directory, where
  -- every other name leads where it led before, and which is well formed again; in the new
  -- directory, which is well formed and which `cominix_empty_dir` finds empty, `.` leads to the new
  -- number and `..` to the old directory's; the new inode has 2 links, the old directory one more
  -- than before, and every other inode as many as before.
  pub mkdir-MadeDir :
      ((ino : ℕ) × (t' : Tree) × (s' : Fs) × (cominix_mkdir ops k name dir mode t s
          ≡ ok (record { err = 0; d_inode = some ino; tree = t' }) s')
        × (used s ino ≡ false)
        × ((j : ℕ) → used s' j ≡ (if ino == j then true else used s j))
        × MadeDir s dir ino name other t t')
      ⊎ ((s' : Fs) × (cominix_mkdir ops k name dir mode t s ≡ ok (fail 28 t) s')
          × ((j : ℕ) → j ≤ s.sb.s_ninodes → used s j ≡ true))
  unfolding cominix_mkdir
  mkdir-MadeDir =
      let (r, s', run, taken, eq) = cominix_new_inode-NumberTaken ops s im in
      let run' = ap (λ b. cominix_new_inode ops b s) given ∙ run in
      elim taken [
        | inl (ino, e, positive, within, free, lowest, marked) ↦
            let (t', ran, made_dir) =
              run_with ino s' eq (run' ∙ ap (λ x. ok x s') e) (λ z. omega arith) within free in
            inl (ino, t', s', ran, free, marked, made_dir)
        | inr (e, all) ↦ inr (
          s',
          rw (make_inode-full ops k dir mode t is_dir s s' (run' ∙ ap (λ x. ok x s') e)),
          all,
        )
      ]
