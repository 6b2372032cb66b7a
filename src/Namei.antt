-- ===== src/Namei.antt =====
-- src/namei.c: the operations on names, over the inodes in memory and their directories. Times and
-- reference counts are left out; an inode without links stays in memory until it is evicted.
pub mod Links
pub mod Mkdir
pub mod Given
pub mod Born
pub mod NewDir
pub mod Rename
pub mod Rmdir
use cominix_fs.BitOps.{BitOps}
use cominix_fs.Bitmap.{NewInode, new_ino, enomem, enospc, cominix_new_inode}
use cominix_fs.Dir.{
  Dir, cominix_find_entry, cominix_inode_by_name, cominix_add_link, cominix_delete_entry,
  cominix_set_link, cominix_empty_dir, cominix_make_empty, cominix_dotdot,
}
use cominix_fs.Disk.{Disk}
use cominix_fs.Fs.{M, ◌>>=◌, pure, get, bug, s_blocksize}
use cominix_fs.Inode.{Inode, FileType, directory, Result, inode, cominix_set_inode, v2_cominix_iget}
use cominix_fs.Prelude.{
  ℕ, ◌+◌, ◌-◌, ◌*◌, ◌/◌, ◌%◌, ◌^◌, ◌≡◌, ◌⊎◌, inl, inr, Bool, true, false, not, ◌&&◌, Option, none,
  some, List, ltb, leb, ◌==◌, if◌then◌else◌, length, replicate,
}

-- An inode in memory and its pages.
pub record Node : Type 0 where
  pub inode : Inode
  pub page_shift : ℕ
  pub page_ok : ℕ → Bool
  pub mapping : Disk

-- the node as a directory, and after a change to it
abbrev pub dir_of : Node → Dir
dir_of n = record {
  i_ino = n.inode.i_ino;
  i_size = n.inode.i_size;
  page_shift = n.page_shift;
  page_ok = n.page_ok;
  mapping = n.mapping;
}

abbrev pub put_dir : Dir → Node → Node
put_dir d n = record {
  inode = record n.inode { i_ino = d.i_ino; i_size = d.i_size };
  page_shift = d.page_shift;
  page_ok = d.page_ok;
  mapping = d.mapping;
}

-- the inodes by their numbers
abbrev pub Tree : Type 0
Tree = ℕ → Node

unfoldable pub update : ℕ → (Node → Node) → Tree → Tree
update ino f t = λ m. if m == ino then f (t m) else t m

-- `inode_inc_link_count` and `inode_dec_link_count`; a count is an unsigned int.
abbrev pub set_nlink : ℕ → Node → Node
set_nlink c n = record n { inode = record n.inode { i_nlink = c } }

unfoldable pub inc_link_count : ℕ → Tree → Tree
inc_link_count ino t = update ino (λ n. set_nlink ((n.inode.i_nlink + 1) % 2 ^ 32) n) t

unfoldable pub dec_link_count : ℕ → Tree → Tree
dec_link_count ino t = update ino (λ n. set_nlink ((n.inode.i_nlink + (2 ^ 32 - 1)) % 2 ^ 32) n) t

-- What the kernel gives. `given` is whether `new_inode` gives an inode, `born dir mode` is that
-- inode after `inode_init_owner`. `cached` is what `iget_locked` gives: nothing, an inode that is in
-- memory, or (false) a new one. `page_symlink` writes the target into the pages. `grab` is the error
-- of `filemap_grab_folio`. The laws say what a new inode is; its mode is of the given kind, but can
-- have the set-group-ID bit of the directory besides.
pub record Vfs : Type 0 where
  pub given : Bool
  pub born : Node → ℕ → Node
  pub cached : ℕ → Option (Bool × Inode)
  pub page_symlink : Node → List ℕ → ℕ × Node
  pub grab : ℕ → ℕ
  pub prepare : Dir → ℕ → ℕ → ℕ
  pub dirsync : Dir → ℕ
  pub page_error : ℕ → ℕ
  pub old_valid_dev : ℕ → Bool
  pub file_type : ℕ → FileType
  pub init_special_inode : ℕ → Inode → Inode
  pub old_decode_dev : ℕ → ℕ
  pub old_encode_dev : ℕ → ℕ
  pub fs_high2lowuid : ℕ → ℕ
  pub fs_high2lowgid : ℕ → ℕ
  pub born_nlink : (dir : Node) (mode : ℕ) → (born dir mode).inode.i_nlink ≡ 1
  pub born_size : (dir : Node) (mode : ℕ) → (born dir mode).inode.i_size ≡ 0
  pub born_type : (dir : Node) (mode : ℕ) → file_type (born dir mode).inode.i_mode ≡ file_type mode

-- What an operation leaves that gives a dentry its inode: the error, 0 for success, the inode that
-- the dentry gets, and the inodes.
pub record Done : Type 0 where
  pub err : ℕ
  pub d_inode : Option ℕ
  pub tree : Tree

abbrev pub fail : ℕ → Tree → Done
fail e t = record { err = e; d_inode = none; tree = t }

-- the inode that `cominix_new_inode` makes for the number that it takes
abbrev pub fresh_node : Vfs → Node → ℕ → ℕ → Node
fresh_node k dir mode ino =
    let n = k.born dir mode in
    record n { inode = record n.inode { i_ino = ino; i_blocks = 0; i_data = replicate 16 0 } }

-- The failure paths of `cominix_mkdir` meet here.
unfoldable pub mkdir_fail : ℕ → ℕ → ℕ → Tree → Done
mkdir_fail e dir ino t = fail e (dec_link_count dir (dec_link_count ino (dec_link_count ino t)))

module _ (ops : BitOps) (k : Vfs) where
  -- `cominix_add_link` in a directory of the tree
  abbrev pub added_to : ℕ → Tree → Option (ℕ × Dir) → M (ℕ × Tree)
  added_to dir t none = λ s. bug
  added_to dir t (some r) = pure (r.0, update dir (put_dir r.1) t)

  unfoldable pub add_link : List ℕ → ℕ → ℕ → Tree → M (ℕ × Tree)
  add_link name dir ino t = do
    s ← get
    added_to dir t
        (cominix_add_link k.prepare k.dirsync k.page_error s.sb name ino (dir_of (t dir)))

  unfoldable pub add_nondir : List ℕ → ℕ → ℕ → Tree → M Done
  add_nondir name dir ino t = do
    r ← add_link name dir ino t
    if r.0 == 0
        then pure (record { err = 0; d_inode = some ino; tree = r.1 })
        else pure (fail r.0 (dec_link_count ino r.1))

  -- 36 is `ENAMETOOLONG`, 12 is `ENOMEM`. The result is the error, or the inode if there is one.
  unfoldable pub cominix_iget : ℕ → M (ℕ ⊎ Result)
  cominix_iget ino = elim (k.cached ino) [
    | none ↦ pure (inl 12)
    | some found ↦ if found.0 then pure (inr (inode found.1)) else do
      r ←
          v2_cominix_iget k.file_type k.init_special_inode k.old_decode_dev k.old_encode_dev
            k.fs_high2lowuid k.fs_high2lowgid (record found.1 { i_ino = ino })
      pure (inr r)
  ]

  unfoldable pub cominix_lookup : List ℕ → ℕ → Tree → M (Option (ℕ ⊎ Result))
  cominix_lookup name dir t = do
    s ← get
    if ltb s.sb.s_namelen (length name) then pure (some (inl 36)) else (do
      let ino = cominix_inode_by_name s.sb (dir_of (t dir)) name
      if ino == 0 then pure none else do r ← cominix_iget ino; pure (some r))

  -- `cominix_new_inode` and `cominix_set_inode`: the error, or the number and the inodes.
  unfoldable pub make_inode : ℕ → ℕ → ℕ → Tree → M (ℕ ⊎ (ℕ × Tree))
  make_inode dir mode rdev t = do
    r ← cominix_new_inode ops k.given
    elim r [
      | enomem ↦ pure (inl 12)
      | enospc ↦ pure (inl 28)
      | new_ino ino ↦
          let n = fresh_node k (t dir) mode ino in
          let i =
            cominix_set_inode k.file_type k.init_special_inode k.old_decode_dev k.old_encode_dev
              k.fs_high2lowuid k.fs_high2lowgid n.inode rdev in
          pure (inr (ino, update ino (λ old. record n { inode = i }) t))
    ]

  -- 22 is `EINVAL`.
  unfoldable pub cominix_mknod : List ℕ → ℕ → ℕ → ℕ → Tree → M Done
  cominix_mknod name dir mode rdev t = if not (k.old_valid_dev rdev) then pure (fail 22 t) else do
    r ← make_inode dir mode rdev t
    elim r [ inl e ↦ pure (fail e t) | inr made ↦ add_nondir name dir made.0 made.1 ]

  unfoldable pub cominix_create : List ℕ → ℕ → ℕ → Tree → M Done
  cominix_create name dir mode t = cominix_mknod name dir mode 0 t

  -- `d_tmpfile` takes the link of the new inode away.
  unfoldable pub cominix_tmpfile : ℕ → ℕ → Tree → M Done
  cominix_tmpfile dir mode t = do
    r ← make_inode dir mode 0 t
    elim r [
      | inl e ↦ pure (fail e t)
      | inr made ↦
          pure (record { err = 0; d_inode = some made.0; tree = dec_link_count made.0 made.1 })
    ]

  -- The mode is `S_IFLNK | 0777`.
  unfoldable pub cominix_symlink : List ℕ → ℕ → List ℕ → Tree → M Done
  cominix_symlink name dir symname t = do
    s ← get
    if ltb (s_blocksize s) (length symname + 1) then pure (fail 36 t) else (do
      r ← make_inode dir 41471 0 t
      elim r [
        | inl e ↦ pure (fail e t)
        | inr made ↦
            let w = k.page_symlink (made.1 made.0) symname in
            let t' = update made.0 (λ n. w.1) made.1 in
            if w.0 == 0
            then add_nondir name dir made.0 t'
            else pure (fail w.0 (dec_link_count made.0 t'))
      ])

  unfoldable pub cominix_link : List ℕ → ℕ → ℕ → Tree → M Done
  cominix_link name dir ino t = add_nondir name dir ino (inc_link_count ino t)

  -- `cominix_mkdir` with its new inode
  unfoldable pub mkdir_inode : List ℕ → ℕ → ℕ → Tree → M Done
  mkdir_inode name dir ino t = do
    s ← get
    let t₁ = inc_link_count ino (inc_link_count dir t)
    let m =
        cominix_make_empty k.prepare k.dirsync k.page_error s.sb (k.grab ino) dir (dir_of (t₁ ino))
    let t₂ = update ino (put_dir m.1) t₁
    if not (m.0 == 0) then pure (mkdir_fail m.0 dir ino t₂) else (do
      a ← add_link name dir ino t₂
      if not (a.0 == 0)
          then pure (mkdir_fail a.0 dir ino a.1)
          else pure (record { err = 0; d_inode = some ino; tree = a.1 }))

  -- `S_IFDIR | mode` for a mode of permissions
  unfoldable pub cominix_mkdir : List ℕ → ℕ → ℕ → Tree → M Done
  cominix_mkdir name dir mode t = do
    r ← make_inode dir (16384 + mode) 0 t
    elim r [ inl e ↦ pure (fail e t) | inr made ↦ mkdir_inode name dir made.0 made.1 ]

  -- 2 is `ENOENT`.
  abbrev pub unlink_found : ℕ → ℕ → Tree → Option (ℕ × ℕ) → M (ℕ × Tree)
  unlink_found dir ino t none = pure (2, t)
  unlink_found dir ino t (some de) = do
    s ← get
    let r = cominix_delete_entry k.prepare k.dirsync k.page_error s.sb de (dir_of (t dir))
    let t' = update dir (put_dir r.1) t
    if r.0 == 0 then pure (0, dec_link_count ino t') else pure (r.0, t')

  unfoldable pub cominix_unlink : List ℕ → ℕ → ℕ → Tree → M (ℕ × Tree)
  cominix_unlink name dir ino t = do
    s ← get
    unlink_found dir ino t (cominix_find_entry s.sb (dir_of (t dir)) name)

  -- 39 is `ENOTEMPTY`.
  unfoldable pub cominix_rmdir : List ℕ → ℕ → ℕ → Tree → M (ℕ × Tree)
  cominix_rmdir name dir ino t = do
    s ← get
    if cominix_empty_dir s.sb (dir_of (t ino))
        then (do
          r ← cominix_unlink name dir ino t
          if r.0 == 0 then pure (0, dec_link_count ino (dec_link_count dir r.1)) else pure r)
        else pure (39, t)
