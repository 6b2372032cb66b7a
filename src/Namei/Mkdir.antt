-- ===== src/Namei/Mkdir.antt =====
-- `cominix_mkdir` of src/namei.c.
use cominix_fs.BitOps.{BitOps}
use cominix_fs.Dir.{Dir, cominix_add_link, cominix_make_empty}
use cominix_fs.Fs.{Fs, ok}
use cominix_fs.Namei.{
  Tree, Vfs, Done, dir_of, put_dir, update, inc_link_count, dec_link_count, add_link, mkdir_fail,
  mkdir_inode,
}
use cominix_fs.Namei.Links.{
  nlink, update_other, nlink-put_dir, dir_of-inc, nlink-inc, nlink-dec, add_link-run,
}
use cominix_fs.Prelude.{
  ℕ, ◌+◌, ◌^◌, ◌<◌, ◌≡◌, ◌≢◌, sym, ap, ◌∙◌, inl, inr, some, List, arith, Bool-cases, ◌==◌, ==_iff,
  ==_self, ==_ne, if◌then◌else◌,
}

-- The link counts after `cominix_mkdir` in the inodes `t`, in which the new inode has one link: a
-- failure leaves the new inode without links and the others as they were.
abbrev pub mkdir_counts : ℕ → ℕ → Tree → Done → ℕ → ℕ
mkdir_counts dir ino t e m =
    if e.err == 0
    then (if m == ino then 2 else if m == dir then nlink t m + 1 else nlink t m)
    else (if m == ino then 0 else nlink t m)

module _ (ops : BitOps) (k : Vfs) (s : Fs) (dir ino : ℕ) (apart : ino ≢ dir) (name : List ℕ)
    (t : Tree) (fresh : nlink t ino ≡ 1) (few : nlink t dir + 1 < 2 ^ 32) where
  abbrev pub counted : Tree
  counted = inc_link_count ino (inc_link_count dir t)

  -- the new directory after `cominix_make_empty`, and the inodes then
  abbrev pub made : ℕ × Dir
  made =
      cominix_make_empty k.prepare k.dirsync k.page_error s.sb (k.grab ino) dir
        (dir_of (counted ino))

  abbrev pub made_tree : Tree
  made_tree = update ino (put_dir made.1) counted

  pub nlink-counted :
      (m : ℕ)
      → nlink counted m ≡ (if m == ino then 2 else if m == dir then nlink t m + 1 else nlink t m)
  nlink-counted m =
      let inner = nlink-inc dir t few in
      let one : nlink (inc_link_count dir t) ino ≡ 1 =
        rw (==_ne ino dir apart) at (inner ino) ∙ fresh in
      nlink-inc ino (inc_link_count dir t) (omega (arith, one)) m ∙ elim (Bool-cases (m == ino)) [
        | inl e ↦
            let same : m ≡ ino = (==_iff m ino).0 e in
            rw e (ap (λ j. nlink (inc_link_count dir t) j + 1) same ∙ omega (arith, one))
        | inr e ↦ rw e (inner m)
      ]

  dir_of-made_tree : dir_of (made_tree dir) ≡ dir_of (t dir)
  dir_of-made_tree =
      ap dir_of (update_other ino dir (put_dir made.1) counted (λ e. apart (sym e)))
      ∙ dir_of-inc ino (inc_link_count dir t) dir
      ∙ dir_of-inc dir t dir

  -- a failure takes the counts back
  nlink-mkdir_fail :
      (e : ℕ) (t' : Tree)
      → ((m : ℕ) → nlink t' m ≡ nlink counted m)
      → (m : ℕ) → nlink (mkdir_fail e dir ino t').tree m ≡ (if m == ino then 0 else nlink t m)
  unfolding mkdir_fail
  nlink-mkdir_fail e t' same m =
      let start : (j : ℕ)
          → nlink t' j ≡ (if j == ino then 2 else if j == dir then nlink t j + 1 else nlink t j) =
        λ j. same j ∙ nlink-counted j in
      let two : nlink t' ino ≡ 2 = rw (==_self ino) at (start ino) in
      let step₁ = nlink-dec ino t' (omega (arith, two)) (omega (arith, two)) in
      let one : nlink (dec_link_count ino t') ino ≡ 1 =
        rw (==_self ino) at (step₁ ino) ∙ omega (arith, two) in
      let step₂ = nlink-dec ino (dec_link_count ino t') (omega (arith, one)) (omega (arith, one)) in
      let at_dir : nlink (dec_link_count ino (dec_link_count ino t')) dir ≡ nlink t dir + 1 =
        ground (arith, apart, step₂ dir, step₁ dir, start dir) in
      nlink-dec dir (dec_link_count ino (dec_link_count ino t')) (omega (arith, at_dir))
        (omega (arith, at_dir)) m
      ∙ ground (arith, apart, step₂ m, step₁ m, start m)

  same_counts : (m : ℕ) → nlink made_tree m ≡ nlink counted m
  same_counts m = nlink-put_dir ino made.1 counted m

  -- The two steps that can fail, as they run.
  make_fails :
      made.0 ≢ 0 → mkdir_inode ops k name dir ino t s ≡ ok (mkdir_fail made.0 dir ino made_tree) s
  unfolding mkdir_inode
  make_fails ne = rw (==_ne made.0 0 ne)

  module _ (r : ℕ × Dir)
      (run : cominix_add_link k.prepare k.dirsync k.page_error s.sb name ino (dir_of (t dir))
        ≡ some r) where
    abbrev pub added_tree : Tree
    added_tree = update dir (put_dir r.1) made_tree

    added : add_link ops k name dir ino made_tree s ≡ ok (r.0, added_tree) s
    added = add_link-run ops k s dir name ino made_tree r (
        ap (cominix_add_link k.prepare k.dirsync k.page_error s.sb name ino) dir_of-made_tree ∙ run)

    add_fails :
        made.0 ≡ 0
        → r.0 ≢ 0
        → mkdir_inode ops k name dir ino t s ≡ ok (mkdir_fail r.0 dir ino added_tree) s
    unfolding mkdir_inode
    add_fails z ne = rw (z, added, ==_ne r.0 0 ne)

    pub succeeds :
        made.0 ≡ 0
        → r.0 ≡ 0
        → mkdir_inode ops k name dir ino t s
          ≡ ok (record { err = 0; d_inode = some ino; tree = added_tree }) s
    unfolding mkdir_inode
    succeeds z z' = rw (z, added, z')

    pub counts-added : (m : ℕ) → nlink added_tree m ≡ nlink counted m
    counts-added m = nlink-put_dir dir r.1 made_tree m ∙ same_counts m

    -- With a new inode of one link other than the directory, room in the directory's link count,
    -- and where adding the entry does not stop the kernel, `cominix_mkdir` ends on each of its
    -- paths after the new inode, with these link counts: on success 2 for the new inode, one more
    -- for the directory, and as before for the others; on a failure none for the new inode, and as
    -- before for all others.
    pub mkdir_inode-counts :
        (e : Done) × (mkdir_inode ops k name dir ino t s ≡ ok e s)
        × ((m : ℕ) → nlink e.tree m ≡ mkdir_counts dir ino t e m)
    unfolding mkdir_fail
    mkdir_inode-counts = elim (Bool-cases (made.0 == 0)) [
      | inr e ↦
          let ne : made.0 ≢ 0 = λ z. cc (e, (==_iff made.0 0).1 z) in
          (
            mkdir_fail made.0 dir ino made_tree,
            make_fails ne,
            λ m. nlink-mkdir_fail made.0 made_tree same_counts m ∙ rw e,
          )
      | inl e ↦ elim (Bool-cases (r.0 == 0)) [
        | inr e' ↦
            let ne : r.0 ≢ 0 = λ z. cc (e', (==_iff r.0 0).1 z) in
            (
              mkdir_fail r.0 dir ino added_tree,
              add_fails ((==_iff made.0 0).0 e) ne,
              λ m. nlink-mkdir_fail r.0 added_tree counts-added m ∙ rw e',
            )
        | inl e' ↦ (
          record { err = 0; d_inode = some ino; tree = added_tree },
          succeeds ((==_iff made.0 0).0 e) ((==_iff r.0 0).0 e'),
          λ m. counts-added m ∙ nlink-counted m,
        )
      ]
    ]
