-- ===== src/Namei/Links.antt =====
-- Link counts and names under `cominix_link` and `cominix_unlink` of src/namei.c.
use cominix_fs.BitOps.{BitOps}
use cominix_fs.Dir.{Dir, inode_bytes, cominix_find_entry, cominix_add_link, cominix_delete_entry}
use cominix_fs.Dir.Insert.{add_link-Rebinds}
use cominix_fs.Dir.Modify.{delete_entry-Rebinds}
use cominix_fs.Dir.Names.{IsName}
use cominix_fs.Dir.Slots.{DirOk}
use cominix_fs.Dir.Unique.{IsUnique, Rebinds}
use cominix_fs.Fs.{Fs, ok}
use cominix_fs.Namei.{
  Node, Tree, Vfs, dir_of, put_dir, update, set_nlink, inc_link_count, dec_link_count, added_to,
  add_link, add_nondir, unlink_found, cominix_link, cominix_unlink, fail,
}
use cominix_fs.Prelude.{
  ℕ, ◌+◌, ◌-◌, ◌%◌, ◌^◌, ◌<◌, ◌≡◌, ◌≢◌, refl, sym, ap, subst, ◌∙◌, inl, inr, none, some, List,
  arith, Bool-cases, ◌==◌, ==_iff, ==_self, ==_ne, if◌then◌else◌,
}

abbrev pub nlink : Tree → ℕ → ℕ
nlink t m = (t m).inode.i_nlink

pub update_self : (i : ℕ) (f : Node → Node) (t : Tree) → update i f t i ≡ f (t i)
unfolding update
update_self i f t = rw (==_self i)

pub update_other : (i m : ℕ) (f : Node → Node) (t : Tree) → m ≢ i → update i f t m ≡ t m
unfolding update
update_other i m f t ne = rw (==_ne m i ne)

-- What an update does not touch stays.
pub update_keeps {ℓ} :
    {A : Type ℓ} (q : Node → A) (i : ℕ) (f : Node → Node) (t : Tree)
    → ((n : Node) → q (f n) ≡ q n)
    → (m : ℕ) → q (update i f t m) ≡ q (t m)
unfolding update
update_keeps q i f t same m = elim (Bool-cases (m == i)) [
  | inl e ↦ rw e (same (t m))
  | inr e ↦ rw e
]

pub nlink-put_dir :
    (i : ℕ) (d : Dir) (t : Tree) (m : ℕ) → nlink (update i (put_dir d) t) m ≡ nlink t m
nlink-put_dir i d t m = update_keeps (λ n. n.inode.i_nlink) i (put_dir d) t (λ n. refl) m

pub dir_of-inc : (i : ℕ) (t : Tree) (m : ℕ) → dir_of (inc_link_count i t m) ≡ dir_of (t m)
unfolding inc_link_count
dir_of-inc i t m =
    update_keeps dir_of i (λ n. set_nlink ((n.inode.i_nlink + 1) % 2 ^ 32) n) t (λ n. refl) m

pub dir_of-dec : (i : ℕ) (t : Tree) (m : ℕ) → dir_of (dec_link_count i t m) ≡ dir_of (t m)
unfolding dec_link_count
dir_of-dec i t m =
    update_keeps dir_of i (λ n. set_nlink ((n.inode.i_nlink + (2 ^ 32 - 1)) % 2 ^ 32) n) t
      (λ n. refl) m

-- a count set from the old one
abbrev counting : (ℕ → ℕ) → Node → Node
counting f n = set_nlink (f n.inode.i_nlink) n

nlink-set :
    (i : ℕ) (f : ℕ → ℕ) (t : Tree) (m : ℕ)
    → nlink (update i (counting f) t) m ≡ (if m == i then f (nlink t m) else nlink t m)
nlink-set i f t m = elim (Bool-cases (m == i)) [
  | inl e ↦
      let same : m ≡ i = (==_iff m i).0 e in
      rw e (
        ap (nlink (update i (counting f) t)) same
        ∙ ap (λ n. n.inode.i_nlink) (update_self i (counting f) t)
        ∙ ap (λ j. f (nlink t j)) (sym same))
  | inr e ↦
      let ne : m ≢ i = λ z. cc (e, (==_iff m i).1 z) in
      rw e (ap (λ n. n.inode.i_nlink) (update_other i m (counting f) t ne))
]

pub nlink-inc :
    (i : ℕ) (t : Tree)
    → nlink t i + 1 < 2 ^ 32
    → (m : ℕ) → nlink (inc_link_count i t) m ≡ (if m == i then nlink t m + 1 else nlink t m)
unfolding inc_link_count
nlink-inc i t few m = nlink-set i (λ c. (c + 1) % 2 ^ 32) t m ∙ elim (Bool-cases (m == i)) [
  | inl e ↦
      let few' : nlink t m + 1 < 2 ^ 32 =
        subst (λ j. nlink t j + 1 < 2 ^ 32) (sym ((==_iff m i).0 e)) few in
      rw e (omega arith)
  | inr e ↦ rw e
]

pub nlink-dec :
    (i : ℕ) (t : Tree)
    → 0 < nlink t i
    → nlink t i < 2 ^ 32
    → (m : ℕ) → nlink (dec_link_count i t) m ≡ (if m == i then nlink t m - 1 else nlink t m)
unfolding dec_link_count
nlink-dec i t some_left few m =
    nlink-set i (λ c. (c + (2 ^ 32 - 1)) % 2 ^ 32) t m ∙ elim (Bool-cases (m == i)) [
      | inl e ↦
          let same = sym ((==_iff m i).0 e) in
          let few' : nlink t m < 2 ^ 32 = subst (λ j. nlink t j < 2 ^ 32) same few in
          let pos : 0 < nlink t m = subst (λ j. 0 < nlink t j) same some_left in rw e (omega arith)
      | inr e ↦ rw e
    ]

module _ (ops : BitOps) (k : Vfs) (s : Fs) (dir : ℕ) (name : List ℕ) where
  pub add_link-run :
      (ino : ℕ) (t : Tree) (r : ℕ × Dir)
      → cominix_add_link k.prepare k.dirsync k.page_error s.sb name ino (dir_of (t dir)) ≡ some r
      → add_link ops k name dir ino t s ≡ ok (r.0, update dir (put_dir r.1) t) s
  unfolding add_link
  add_link-run ino t r e = ap (λ o. added_to ops k dir t o s) e

  -- `cominix_link` where the entry is added, or is not
  module _ (t : Tree) (ino : ℕ) (few : nlink t ino + 1 < 2 ^ 32) where
    linked : Dir → Tree
    linked d = update dir (put_dir d) (inc_link_count ino t)

    added :
        (r : ℕ × Dir)
        → cominix_add_link k.prepare k.dirsync k.page_error s.sb name ino (dir_of (t dir)) ≡ some r
        → add_link ops k name dir ino (inc_link_count ino t) s ≡ ok (r.0, linked r.1) s
    unfolding linked
    added r e = add_link-run ino (inc_link_count ino t) r (
        ap (cominix_add_link k.prepare k.dirsync k.page_error s.sb name ino) (dir_of-inc ino t dir)
        ∙ e)

    counted :
        (d : Dir) (m : ℕ) → nlink (linked d) m ≡ (if m == ino then nlink t m + 1 else nlink t m)
    unfolding linked
    counted d m = nlink-put_dir dir d (inc_link_count ino t) m ∙ nlink-inc ino t few m

    -- Where adding the entry ends in an error, and the inode's link count has room, `cominix_link`
    -- ends with that error, the directory is as the attempt left it, and every inode has as many
    -- links as before.
    pub link_fails :
        (e : ℕ) (d : Dir)
        → e ≢ 0
        → cominix_add_link k.prepare k.dirsync k.page_error s.sb name ino (dir_of (t dir))
          ≡ some (e, d)
        → (t' : Tree) × (cominix_link ops k name dir ino t s ≡ ok (fail e t') s)
          × (dir_of (t' dir) ≡ d)
          × ((m : ℕ) → nlink t' m ≡ nlink t m)
    unfolding cominix_link add_nondir linked
    link_fails e d ne run =
        let above : nlink (linked d) ino ≡ nlink t ino + 1 = rw (==_self ino) at (counted d ino) in
        let back : (m : ℕ) → nlink (dec_link_count ino (linked d)) m ≡ nlink t m = λ m.
          nlink-dec ino (linked d) (omega arith) (omega arith) m ∙ ground (arith, counted d m) in
        (
          dec_link_count ino (linked d),
          rw (added (e, d) run, ==_ne e 0 ne),
          dir_of-dec ino (linked d) dir
              ∙ ap dir_of (update_self dir (put_dir d) (inc_link_count ino t)),
          back,
        )

  -- `cominix_link` and `cominix_unlink` in a well-formed directory
  module _ (t : Tree) (v : DirOk s.sb (dir_of (t dir))) (u : IsUnique s.sb (dir_of (t dir)) v.count)
      (nv : IsName s.sb.s_namelen name)
      (ready : (e : Dir) (pos : ℕ) → k.prepare e pos s.sb.s_dirsize ≡ 0)
      (synced : (e : Dir) → k.dirsync e ≡ 0) (ino : ℕ) (other : List ℕ)
      (ov : IsName s.sb.s_namelen other) where
    -- In a well-formed directory with different names, for a name that is not found, an inode with
    -- a number other than 0 that an entry can hold and room in its link count, and a kernel that
    -- prepares every write and syncs without an error, `cominix_link` succeeds. Afterwards the name
    -- leads to the inode, every other name leads where it led before, the directory is well formed
    -- again, the inode has one link more, and every other inode as many as before.
    pub link-Rebinds :
        cominix_find_entry s.sb (dir_of (t dir)) name ≡ none
        → ino ≢ 0
        → ino < 256 ^ inode_bytes s.sb
        → nlink t ino + 1 < 2 ^ 32
        → (t' : Tree) × (cominix_link ops k name dir ino t s
            ≡ ok (record { err = 0; d_inode = some ino; tree = t' }) s)
          × Rebinds s.sb (dir_of (t dir)) (dir_of (t' dir)) name ino other
          × ((m : ℕ) → nlink t' m ≡ (if m == ino then nlink t m + 1 else nlink t m))
    unfolding cominix_link add_nondir linked
    link-Rebinds missing positive small few =
        let (d, run, binds) =
          add_link-Rebinds k.prepare k.dirsync k.page_error s.sb ready (dir_of (t dir)) v u name nv
            missing ino positive small other ov in
        let run' = run ∙ ap (λ e. some (e, d)) (synced d) in
        let here : dir_of (linked t ino few d dir) ≡ d =
          ap dir_of (update_self dir (put_dir d) (inc_link_count ino t)) in
        (
          linked t ino few d,
          rw (added t ino few (0, d) run'),
          subst (λ e. Rebinds s.sb (dir_of (t dir)) e name ino other) (sym here) binds,
          counted t ino few d,
        )

    -- In a well-formed directory with different names, for a name that is found, an inode with a
    -- link and fewer than a count can hold, and a kernel that prepares every write and syncs
    -- without an error, `cominix_unlink` succeeds. Afterwards the name leads nowhere, every other
    -- name leads where it led before, the directory is well formed again, the inode has one link
    -- less, and every other inode as many as before.
    pub unlink-Rebinds :
        (de : ℕ × ℕ)
        → cominix_find_entry s.sb (dir_of (t dir)) name ≡ some de
        → 0 < nlink t ino
        → nlink t ino < 2 ^ 32
        → (t' : Tree) × (cominix_unlink ops k name dir ino t s ≡ ok (0, t') s)
          × Rebinds s.sb (dir_of (t dir)) (dir_of (t' dir)) name 0 other
          × ((m : ℕ) → nlink t' m ≡ (if m == ino then nlink t m - 1 else nlink t m))
    unfolding cominix_unlink
    unlink-Rebinds de found some_left few =
        let r = cominix_delete_entry k.prepare k.dirsync k.page_error s.sb de (dir_of (t dir)) in
        let (status, binds) =
          delete_entry-Rebinds k.prepare k.dirsync k.page_error s.sb ready (dir_of (t dir)) v u name
            nv de found other ov in
        let t₁ = update dir (put_dir r.1) t in
        let same = nlink-put_dir dir r.1 t in
        let here : dir_of (dec_link_count ino t₁ dir) ≡ r.1 =
          dir_of-dec ino t₁ dir ∙ ap dir_of (update_self dir (put_dir r.1) t) in
        let done : r.0 ≡ 0 = status ∙ synced r.1 in
        (
          dec_link_count ino t₁,
          ap (λ o. unlink_found ops k dir ino t o s) found ∙ rw done,
          subst (λ e. Rebinds s.sb (dir_of (t dir)) e name 0 other) (sym here) binds,
          λ m. nlink-dec ino t₁ (omega (arith, same ino)) (omega (arith, same ino)) m ∙ rw (same m),
        )
