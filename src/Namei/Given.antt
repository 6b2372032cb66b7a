-- ===== src/Namei/Given.antt =====
-- `cominix_mkdir` of src/namei.c in a well-formed directory, with the new inode given.
use cominix_fs.BitOps.{BitOps}
use cominix_fs.Dir.{Dir, inode_bytes, cominix_find_entry, cominix_make_empty}
use cominix_fs.Dir.Dots.{IsNew}
use cominix_fs.Dir.Insert.{add_link-Rebinds}
use cominix_fs.Dir.MakeEmpty.{make_empty-IsNew}
use cominix_fs.Dir.Names.{IsName}
use cominix_fs.Dir.Slots.{DirOk}
use cominix_fs.Dir.Unique.{IsUnique, Rebinds}
use cominix_fs.Fs.{Fs, ok}
use cominix_fs.Namei.{Tree, Vfs, dir_of, put_dir, inc_link_count, mkdir_inode}
use cominix_fs.Namei.Links.{nlink, update_self, update_other, dir_of-inc}
use cominix_fs.Namei.Mkdir.{
  counted, made, made_tree, added_tree, succeeds, counts-added, nlink-counted,
}
use cominix_fs.Prelude.{
  ℕ, ◌+◌, ◌*◌, ◌^◌, ◌<◌, ◌≤◌, ◌≡◌, ◌≢◌, refl, sym, ap, ap₂, subst, ◌∙◌, none, some, List, ◌==◌,
  if◌then◌else◌,
}

-- What `cominix_mkdir` leaves, for another name in the old directory and for each link count.
abbrev pub MadeDir : Fs → ℕ → ℕ → List ℕ → List ℕ → Tree → Tree → Type 0
MadeDir s dir ino name other t t' =
    Rebinds s.sb (dir_of (t dir)) (dir_of (t' dir)) name ino other
    × IsNew s.sb (dir_of (t' ino)) ino dir
    × ((m : ℕ)
        → nlink t' m ≡ (if m == ino then 2 else if m == dir then nlink t m + 1 else nlink t m))

module _ (ops : BitOps) (k : Vfs) (s : Fs) (dir : ℕ) (name : List ℕ)
    (ready : (e : Dir) (pos len : ℕ) → k.prepare e pos len ≡ 0)
    (synced : (e : Dir) → k.dirsync e ≡ 0) (grabbed : (j : ℕ) → k.grab j ≡ 0)
    (three : 3 ≤ s.sb.s_namelen) (nv : IsName s.sb.s_namelen name) (other : List ℕ)
    (ov : IsName s.sb.s_namelen other) (dir_positive : dir ≢ 0)
    (dir_small : dir < 256 ^ inode_bytes s.sb) where
  -- with the new inode
  module _ (t : Tree) (v : DirOk s.sb (dir_of (t dir))) (u : IsUnique s.sb (dir_of (t dir)) v.count)
      (missing : cominix_find_entry s.sb (dir_of (t dir)) name ≡ none)
      (few : nlink t dir + 1 < 2 ^ 32) (ino : ℕ) (apart : ino ≢ dir) (fresh : nlink t ino ≡ 1)
      (ino_positive : ino ≢ 0) (ino_small : ino < 256 ^ inode_bytes s.sb)
      (w : DirOk s.sb (dir_of (t ino))) (empty : w.count ≡ 0) (paged : 2 ≤ w.per_page)
      (own : (t ino).inode.i_ino ≡ ino) where
    pub mkdir_inode-MadeDir :
        (t' : Tree) × (mkdir_inode ops k name dir ino t s
          ≡ ok (record { err = 0; d_inode = some ino; tree = t' }) s)
        × MadeDir s dir ino name other t t'
    mkdir_inode-MadeDir =
        let made_e = made ops k s dir ino apart name t fresh few in
        let e : made_e
            ≡ cominix_make_empty k.prepare k.dirsync k.page_error s.sb 0 dir (dir_of (t ino)) =
          ap₂ (λ g d. cominix_make_empty k.prepare k.dirsync k.page_error s.sb g dir d)
            (grabbed ino) (dir_of-inc ino (inc_link_count dir t) ino ∙ dir_of-inc dir t ino) in
        let (status, is_new) =
          make_empty-IsNew k.prepare k.dirsync k.page_error s.sb (dir_of (t ino)) w empty paged
            three dir (λ z. ino_positive (sym own ∙ z)) dir_positive
            (subst (λ j. j < 256 ^ inode_bytes s.sb) (sym own) ino_small) dir_small
            (ready (dir_of (t ino)) 0 (2 * s.sb.s_dirsize)) in
        let made_ok : made_e.0 ≡ 0 = ap (λ (r : ℕ × Dir). r.0) e ∙ status ∙ synced _ in
        let (d, run, binds) =
          add_link-Rebinds k.prepare k.dirsync k.page_error s.sb
            (λ e pos. ready e pos s.sb.s_dirsize) (dir_of (t dir)) v u name nv missing ino
            ino_positive ino_small other ov in
        let run' = run ∙ ap (λ e. some (e, d)) (synced d) in
        let before = made_tree ops k s dir ino apart name t fresh few in
        let t' = added_tree ops k s dir ino apart name t fresh few (0, d) run' in
        let at_dir : dir_of (t' dir) ≡ d = ap dir_of (update_self dir (put_dir d) before) in
        let at_ino : dir_of (t' ino) ≡ made_e.1 = ap dir_of (
          update_other dir ino (put_dir d) before apart
          ∙ update_self ino (put_dir made_e.1) (counted ops k s dir ino apart name t fresh few)) in
        (
          t',
          succeeds ops k s dir ino apart name t fresh few (0, d) run' made_ok refl,
          (
            subst (λ x. Rebinds s.sb (dir_of (t dir)) x name ino other) (sym at_dir) binds,
            subst (λ x. IsNew s.sb x ino dir) (sym (at_ino ∙ ap (λ (r : ℕ × Dir). r.1) e))
                (subst
                  (λ j.
                    IsNew s.sb
                      (cominix_make_empty k.prepare k.dirsync k.page_error s.sb 0 dir
                        (dir_of (t ino))).1
                      j dir)
                  own is_new),
            λ m.
                counts-added ops k s dir ino apart name t fresh few (0, d) run' m
                ∙ nlink-counted ops k s dir ino apart name t fresh few m,
          ),
        )
