-- ===== src/Namei/Rename.antt =====
-- `cominix_rename` of src/namei.c.
use cominix_fs.BitOps.{BitOps}
use cominix_fs.Dir.{
  cominix_find_entry, cominix_delete_entry, cominix_set_link, cominix_empty_dir, cominix_dotdot,
}
use cominix_fs.Fs.{M, ◌>>=◌, pure, get}
use cominix_fs.Inode.{directory}
use cominix_fs.Prelude.{
  ℕ, ◌/◌, Bool, true, false, not, ◌&&◌, Option, none, some, List, ◌==◌, if◌then◌else◌,
}
use cominix_fs.Namei.{Tree, Vfs, dir_of, put_dir, update, inc_link_count, dec_link_count, add_link}

module _ (ops : BitOps) (k : Vfs) where
  -- The new name of `cominix_rename`: it takes the place of another inode, or it is added.
  unfoldable pub rename_target : Option (ℕ × ℕ) → ℕ → ℕ → List ℕ → Option ℕ → Tree → M (ℕ × Tree)
  rename_target dir_de old_ino new_dir new_name new_inode t = do
    s ← get
    let is_dir : Bool = elim dir_de [ none ↦ false | some de ↦ true ]
    elim new_inode [
      | none ↦ do
        r ← add_link ops k new_name new_dir old_ino t
        if r.0 == 0 && is_dir then pure (0, inc_link_count new_dir r.1) else pure r
      | some target ↦
          if is_dir && not (cominix_empty_dir s.sb (dir_of (t target)))
          then pure (39, t)
          else elim (cominix_find_entry s.sb (dir_of (t new_dir)) new_name) [
            | none ↦ pure (2, t)
            | some new_de ↦
                let r =
                  cominix_set_link k.prepare k.dirsync k.page_error s.sb new_de old_ino
                    (dir_of (t new_dir)) in
                let t' = update new_dir (put_dir r.1) t in
                if r.0 == 0
                then pure
                    (0, dec_link_count target (if is_dir then dec_link_count target t' else t'))
                else pure (r.0, t')
          ]
    ]

  -- The old name goes, and `..` of a directory leads to its new parent.
  unfoldable pub rename_found :
      ℕ × ℕ → Option (ℕ × ℕ) → ℕ → ℕ → ℕ → List ℕ → Option ℕ → Tree → M (ℕ × Tree)
  rename_found old_de dir_de old_dir old_ino new_dir new_name new_inode t = do
    s ← get
    r ← rename_target dir_de old_ino new_dir new_name new_inode t
    if not (r.0 == 0) then pure r else (do
      let d =
          cominix_delete_entry k.prepare k.dirsync k.page_error s.sb old_de (dir_of (r.1 old_dir))
      let t' = update old_dir (put_dir d.1) r.1
      if not (d.0 == 0) then pure (d.0, t') else elim dir_de [
        | none ↦ pure (0, t')
        | some de ↦
            let l =
              cominix_set_link k.prepare k.dirsync k.page_error s.sb de new_dir
                (dir_of (t' old_ino)) in
            let t'' = update old_ino (put_dir l.1) t' in
            if l.0 == 0 then pure (0, dec_link_count old_dir t'') else pure (l.0, t'')
      ])

  -- `RENAME_NOREPLACE` is 1. 5 is `EIO`.
  unfoldable pub cominix_rename : ℕ → ℕ → List ℕ → ℕ → ℕ → List ℕ → Option ℕ → Tree → M (ℕ × Tree)
  cominix_rename flags old_dir old_name old_ino new_dir new_name new_inode t = do
    s ← get
    if not (flags / 2 == 0)
        then pure (22, t)
        else elim (cominix_find_entry s.sb (dir_of (t old_dir)) old_name) [
          | none ↦ pure (2, t)
          | some old_de ↦ elim (k.file_type (t old_ino).inode.i_mode) [
            | directory ↦ elim (cominix_dotdot s.sb (dir_of (t old_ino))) [
              | none ↦ pure (5, t)
              | some de ↦ rename_found old_de (some de) old_dir old_ino new_dir new_name new_inode t
            ]
            | _ ↦ rename_found old_de none old_dir old_ino new_dir new_name new_inode t
          ]
        ]
