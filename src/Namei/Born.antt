-- ===== src/Namei/Born.antt =====
-- The new inode of `cominix_mkdir` of src/namei.c.
use cominix_fs.BitOps.{BitOps}
use cominix_fs.Bitmap.{new_ino, enospc, cominix_new_inode}
use cominix_fs.Dir.Slots.{DirOk}
use cominix_fs.Fs.{Fs, ok}
use cominix_fs.Inode.{
  Inode, directory, cominix_set_inode, cominix_dir_inode_operations, cominix_dir_operations,
  cominix_aops,
}
use cominix_fs.Namei.{Node, Tree, Vfs, dir_of, update, fresh_node, make_inode}
use cominix_fs.Prelude.{ℕ, ◌+◌, ◌^◌, ◌≤◌, ◌≡◌, refl, ap, ◌∙◌, true, inl, inr, arith}

-- a new directory inode with its number
abbrev pub IsBorn : Fs → ℕ → Node → Type 0
IsBorn s ino n =
    (n.inode.i_nlink ≡ 1)
    × (n.inode.i_ino ≡ ino)
    × ((w : DirOk s.sb (dir_of n)) × (w.count ≡ 0) × (2 ≤ w.per_page))

module _ (ops : BitOps) (k : Vfs) (dir mode : ℕ) (t : Tree)
    (is_dir : k.file_type (16384 + mode) ≡ directory) where
  abbrev born_node : Node
  born_node = k.born (t dir) (16384 + mode)

  abbrev pub new_node : ℕ → Node
  new_node ino =
      let n = fresh_node k (t dir) (16384 + mode) ino in
      record n {
        inode =
            cominix_set_inode k.file_type k.init_special_inode k.old_decode_dev k.old_encode_dev
              k.fs_high2lowuid k.fs_high2lowgid n.inode 0;
      }

  abbrev pub new_tree : ℕ → Tree
  new_tree ino = update ino (λ old. new_node ino) t

  -- For a directory only the operations are set.
  set_directory :
      (i : Inode)
      → k.file_type i.i_mode ≡ directory
      → cominix_set_inode k.file_type k.init_special_inode k.old_decode_dev k.old_encode_dev
          k.fs_high2lowuid k.fs_high2lowgid i 0
        ≡ record i {
          i_op = cominix_dir_inode_operations;
          i_fop = cominix_dir_operations;
          a_ops = cominix_aops;
        }
  unfolding cominix_set_inode
  set_directory i e = rw (e, cominix_set_inode)

  set_keeps :
      {A : Type 0} (q : Inode → A) (ino : ℕ)
      → ((i : Inode)
          → q (record i {
            i_op = cominix_dir_inode_operations;
            i_fop = cominix_dir_operations;
            a_ops = cominix_aops;
          })
            ≡ q i)
      → q (new_node ino).inode ≡ q (fresh_node k (t dir) (16384 + mode) ino).inode
  set_keeps q ino same =
      let i = (fresh_node k (t dir) (16384 + mode) ino).inode in
      ap q (set_directory i (k.born_type (t dir) (16384 + mode) ∙ is_dir)) ∙ same i

  pub new_node-IsBorn :
      (s : Fs) (v : DirOk s.sb (dir_of (t dir)))
      → 2 ≤ v.per_page
      → born_node.page_shift ≡ (t dir).page_shift
      → ((j : ℕ) → born_node.page_ok j ≡ true)
      → (ino : ℕ) → IsBorn s ino (new_node ino)
  new_node-IsBorn s v two shift pages ino = (
    set_keeps (λ i. i.i_nlink) ino (λ i. refl) ∙ k.born_nlink (t dir) (16384 + mode),
    set_keeps (λ i. i.i_ino) ino (λ i. refl),
    (
      record {
        per_page = v.per_page;
        count = 0;
        entry_pos = v.entry_pos;
        page_pos = v.page_pos;
        paged = ap (λ n. 2 ^ n) shift ∙ v.paged;
        sized =
            set_keeps (λ i. i.i_size) ino (λ i. refl)
            ∙ k.born_size (t dir) (16384 + mode)
            ∙ omega arith;
        pages = pages;
        fits = v.fits;
      },
      refl,
      two,
    ),
  )

  pub make_inode-run :
      (s s' : Fs) (ino : ℕ)
      → cominix_new_inode ops k.given s ≡ ok (new_ino ino) s'
      → make_inode ops k dir (16384 + mode) 0 t s ≡ ok (inr (ino, new_tree ino)) s'
  unfolding make_inode
  make_inode-run s s' ino e = rw e

  pub make_inode-full :
      (s s' : Fs)
      → cominix_new_inode ops k.given s ≡ ok enospc s'
      → make_inode ops k dir (16384 + mode) 0 t s ≡ ok (inl 28) s'
  unfolding make_inode
  make_inode-full s s' e = rw e
