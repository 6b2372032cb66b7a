-- ===== src/File/Replace.antt =====
-- The rest of `chunk_and_replace` of src/file.c, which turns the file into a chunked one, and
-- `cminix_proc_write`, which is given a file's name.
use cominix_fs.Prelude.{
  ℕ, ◌+◌, ◌-◌, ◌^◌, Bool, true, false, not, Option, none, some, List, [], ◌∷◌, leb, ◌==◌,
  if◌then◌else◌, set, take, get_or,
}
use cominix_fs.BitOps.{BitOps}
use cominix_fs.Bitmap.{cominix_count_free_blocks}
use cominix_fs.File.{chunk_file}
use cominix_fs.Fs.{M, pure, ◌>>=◌, ◌>>◌, bug_on, defined_if}
use cominix_fs.Inode.{
  Inode, FileType, regular, directory, symlink, char_device, block_device, other_type, OpTable,
  cominix_file_operations, switch_inode_to_chunked, cominix_set_inode, cominix_write_inode,
}
use cominix_fs.Itree.Truncate.{cominix_truncate}

-- `zones[1]`, `zones[2]` and `zones[3]`
unfoldable pub set_list : ℕ → ℕ → ℕ → Inode → Inode
set_list head ll_size end i = record i { i_data = set (set (set i.i_data 1 head) 2 ll_size) 3 end }

abbrev pub is_some : {A : Type 0} → Option A → Bool
is_some none = false
is_some (some a) = true

abbrev pub is_regular : FileType → Bool
is_regular regular = true
is_regular directory = false
is_regular symlink = false
is_regular char_device = false
is_regular block_device = false
is_regular other_type = false

abbrev pub is_file_operations : OpTable → Bool
is_file_operations cominix_file_operations = true
is_file_operations _ = false

-- a C string: the bytes up to the first 0
unfoldable pub c_string : List ℕ → List ℕ
c_string [] = []
c_string (b ∷ bs) = let rest = c_string bs in if b == 0 then [] else b ∷ rest

-- an open file: whether it lies on a file system of this type, and its inode
pub record OpenFile : Type 0 where
  pub same_type : Bool
  pub f_inode : Inode

-- What the kernel gives: as in the modules of the operations that are called, and `copy_from_user`
-- the user's bytes, or an error; `filp_open` the file of a path, or an error.
module _ (kernel_read : ℕ → ℕ → Option (List ℕ)) (kmalloc : ℕ → Bool)
    (md5_hash : List ℕ → Option (List ℕ)) (ops : BitOps) (file_type : ℕ → FileType)
    (init_special_inode : ℕ → Inode → Inode) (old_decode_dev old_encode_dev : ℕ → ℕ)
    (fs_high2lowuid fs_high2lowgid : ℕ → ℕ) (block_truncate_page : ℕ → M (Unit {0}))
    (s_maxbytes : ℕ) (sync_dirty_buffer : ℕ → Bool) where
  -- `print_heap_info` counts the free blocks and changes nothing.
  unfoldable pub print_heap_info : M (Unit {0})
  print_heap_info = do cominix_count_free_blocks ops; pure tt

  -- from the truncation on: the file's own blocks are given back, and its inode gets the list
  unfoldable pub replace : ℕ → ℕ → ℕ → Inode → M Inode
  replace head end ll_size i = do
    print_heap_info
    emptied ←
        cominix_truncate ops file_type block_truncate_page s_maxbytes (record i { i_size = 0 })
    print_heap_info
    bug_on (leb (2 ^ 32) head)
    bug_on (leb (2 ^ 32) ll_size)
    bug_on (leb (2 ^ 32) end)
    let chunked =
        set_list head ll_size end (switch_inode_to_chunked (record emptied { i_size = i.i_size }))
    failed ←
        cominix_write_inode file_type init_special_inode old_decode_dev old_encode_dev
          fs_high2lowuid fs_high2lowgid sync_dirty_buffer false chunked
    bug_on (is_some failed)
    print_heap_info
    pure (
        cominix_set_inode file_type init_special_inode old_decode_dev old_encode_dev fs_high2lowuid
          fs_high2lowgid chunked 0)

  -- The inode afterwards, or nothing for a result of -1, when the file could not be read.
  unfoldable pub chunk_and_replace : Inode → M (Option Inode)
  chunk_and_replace i = do
    done ← chunk_file kernel_read kmalloc md5_hash ops i.i_size
    elim done [ none ↦ pure none | some r ↦ do i' ← replace r.0 r.1 r.2 i; pure (some i') ]

  -- behind `filp_open`: the file's inode afterwards, or nothing where the file is refused
  unfoldable pub chunk_opened : OpenFile → M (Option Inode)
  chunk_opened filp =
      if not filp.same_type
      then pure none
      else if not (is_regular (file_type filp.f_inode.i_mode))
      then pure none
      else if not (is_file_operations filp.f_inode.i_fop)
      then pure none
      else (do
        replaced ← chunk_and_replace filp.f_inode
        elim replaced [ none ↦ pure (some filp.f_inode) | some i ↦ pure (some i) ])

  -- The path in the buffer of `count + 1` bytes: its last byte is dropped if it is a newline.
  unfoldable pub path_of : ℕ → List ℕ → List ℕ
  path_of count bytes =
      if get_or bytes (count - 1) 0 == 10
      then c_string (take (count - 1) bytes)
      else c_string (take count bytes)

  -- The result is `count` with the file's inode, or nothing for -1. Without bytes the byte before
  -- the buffer is read.
  unfoldable pub cminix_proc_write :
      (ℕ → Option (List ℕ)) → (List ℕ → Option OpenFile) → ℕ → M (Option (ℕ × Inode))
  cminix_proc_write copy_from_user filp_open count =
      if not (kmalloc (count + 1)) then pure none else elim (copy_from_user count) [
        | none ↦ pure none
        | some bytes ↦ do
          defined_if (not (count == 0))
          elim (filp_open (path_of count bytes)) [
            | none ↦ pure none
            | some filp ↦ do
              opened ← chunk_opened filp
              elim opened [ none ↦ pure none | some i ↦ pure (some (count, i)) ]
          ]
      ]
