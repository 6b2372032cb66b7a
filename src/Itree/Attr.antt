-- ===== src/Itree/Attr.antt =====
-- `cominix_getattr`, `cominix_write_begin` and `cominix_write_failed` of src/inode.c.
use cominix_fs.BitOps.{BitOps}
use cominix_fs.Fs.{Fs, s_blocksize, M, pure, ◌>>=◌}
use cominix_fs.Inode.{Inode, FileType}
use cominix_fs.Itree.{nblocks}
use cominix_fs.Itree.Truncate.{cominix_truncate}
use cominix_fs.Prelude.{ℕ, ◌+◌, ◌*◌, ◌/◌, ltb, ◌==◌, if◌then◌else◌}

-- `struct kstat`, less what `generic_fillattr` copies from the inode as it is
pub record Kstat : Type 0 where
  pub size : ℕ
  pub blocks : ℕ
  pub blksize : ℕ

unfoldable pub cominix_getattr : Fs → Inode → Kstat
cominix_getattr s i = record {
  size = i.i_size;
  blocks = (s_blocksize s / 512) * nblocks s.s_blocksize_bits i.i_size;
  blksize = s_blocksize s;
}

module _ (ops : BitOps) (file_type : ℕ → FileType) (block_truncate_page : ℕ → M (Unit {0}))
    (s_maxbytes : ℕ) where
  -- What a write left behind the file's end is given back.
  unfoldable pub cominix_write_failed : Inode → ℕ → M Inode
  cominix_write_failed i to =
      if ltb i.i_size to
      then cominix_truncate ops file_type block_truncate_page s_maxbytes i
      else pure i

  -- `block_write_begin` is the kernel's: the error, 0 for success, and the inode, for which it gets
  -- the blocks from `cominix_get_block`.
  unfoldable pub cominix_write_begin :
      (ℕ → ℕ → Inode → M (ℕ × Inode)) → Inode → ℕ → ℕ → M (ℕ × Inode)
  cominix_write_begin block_write_begin i pos len = do
    r ← block_write_begin pos len i
    if r.0 == 0 then pure r else do i' ← cominix_write_failed r.1 (pos + len); pure (r.0, i')
