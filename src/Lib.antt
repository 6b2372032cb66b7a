-- ===== src/Lib.antt =====
-- Verification of the cominix file system: a Minix V3 file system for Linux whose files can be cut
-- into chunks by content and stored once each in a heap behind the zone area.
--
-- The device holds, one behind the other, the zones of a Minix file system, a hash table, and a heap
-- of chunks. A file that is written to the chunker's proc entry is cut into chunks (src/cdc.h); each
-- chunk is looked up by its hash and filled in if it is new (src/chunk_handler.c); its place and
-- size go to the file's list (src/linked_list.h), which lives in blocks that the zone bitmap gives
-- (src/bitmap.c); the inode is then marked (src/cominix.h), and reads go through the list to the
-- heap (src/file.c). The extra super block (src/inode.c) keeps the table's place and the heap's
-- break from one mount to the next.
--
-- State and runs. `Fs` (Fs.antt) is the mounted state: the fields of `struct cominix_sb_info`, the
-- device as the buffer cache shows it, and the contents of the bitmap buffers. Code that changes
-- state is a function into `M`; a `Run` ends in a value and a state, in `BUG()`, in an access that
-- no buffer covers (`oops`), or out of fuel (`hang`). A buffer head is its block's number, and
-- `readable` says of which blocks `sb_bread` gives a buffer. Every access through a pointer is
-- checked against the buffer that it points into. Disk.antt has the bytes of the device, by block and
-- offset and as one array. Machine integers keep their width: `% 2 ^ 32` and `% 2 ^ 64` stand where
-- the source's types cut a number.
--
-- Which file models which part:
-- - Chunk.antt: src/chunk_handler.c, each function by its name. `chunk_start` is the choice of a
--   chunk's place inside `chunk_alloc`; `write_blocks`, `read_blocks` and `search_chain` are loops.
--   The invariants are `HeapOk` (Chunk/Alloc.antt), `Holds` and `Grows` (Chunk/Table.antt).
-- - LinkedList.antt: src/linked_list.h. `Blocks` (LinkedList/Search.antt) is what a list is on disk,
--   `Growing` (LinkedList/Append.antt) a list that is being built: full blocks and a last one.
-- - Cdc.antt, Cdc/Gear.antt: src/cdc.h and src/gear_table.c.
-- - Bitmap.antt: src/bitmap.c. The kernel's bit operations are the record `BitOps` (BitOps.antt) of
--   operations and of the laws that they document. `ZmapOk` (Bitmap/Alloc.antt) is the invariant.
-- - Inode.antt: `cominix_set_inode`, `V2_cominix_iget`, `V2_cominix_update_inode` and
--   `cominix_write_inode` of src/inode.c, and the mark of a chunked inode in src/cominix.h.
-- - Mount.antt: the extra super block, the check of the super block, remount and statfs of
--   src/inode.c. Mount/FillSuper.antt: `cominix_fill_super` and `cominix_put_super`.
--   `GoodNumbers` (Mount/Maps.antt) is what the maps need of the super block.
-- - Itree.antt: `block_to_path` of src/itree_v2.c and `nblocks` of src/itree_common.c. Itree/Common.antt
--   has the way through the block pointers and the allocation of zones, Itree/Truncate.antt truncation,
--   with `cominix_truncate` and `cominix_evict_inode` of src/inode.c, Itree/Attr.antt what src/inode.c
--   makes of them. The pointers of the inode are a list that is passed on.
-- - Dir.antt: src/dir.c, on the pages of a directory in memory. `DirOk` (Dir/Slots.antt) says that a
--   directory is a row of entries, `Rebinds` (Dir/Unique.antt) what one change to the map is.
-- - Namei.antt, Namei/Rename.antt: src/namei.c, over the inodes in memory by their numbers, with their pages (`Tree`),
--   and `cominix_iget` of src/inode.c. The record `Vfs` is what the kernel gives, with its laws.
-- - File.antt: `chunked_file_read` and the first part of `chunk_and_replace` of src/file.c.
--   File/Replace.antt: the rest of it, and `cminix_proc_write`. `Promises` (File/Cut.antt) is what
--   the kernel and the digests are taken to do while a file is cut, `Store` (File/Store.antt) that
--   the chunks have the hashes of their bytes.
-- - Prelude.antt: shared tests, lists and arithmetic. Tests.antt: small devices and examples.
--
-- Fuel. The loops over blocks get as many rounds as there are bytes to move and one, and each round
-- moves a byte at least. The walk along a bucket's chain gets as many rounds as the break and one,
-- since the links of a bucket go strictly down. The search in a list gets a round for each byte of
-- the position, since each block but the last is full. The loop over a file gets a round for each
-- byte of the file.
--
-- `get_block` reads the way again where another run has changed it; without others it reads it once.
--
-- What the kernel gives is a parameter: whether bytes can be copied to the user, reads of a file's
-- pages, memory, MD5 digests, whether a page of a directory can be read and written, bit operations,
-- the inode that a directory gives a new one (whose mode is of the kind asked for, but may have one
-- more bit), the kind of a mode, device number encodings, and the 16-bit forms of ids. Messages, buffer flags,
-- reference counts, the dentry cache, times of directories and locks are left out: each function is
-- one run without others between its steps.
--
-- Not modelled: src/md5_wrapper.h and the tables of operations, which only call the kernel or are
-- handed to it, and `fail_write` of src/file.c, which nothing calls.
pub mod Prelude
pub mod Disk
pub mod Fs
pub mod Chunk
pub mod BitOps
pub mod Bitmap
pub mod LinkedList
pub mod Cdc
pub mod Itree
pub mod Inode
pub mod Mount
pub mod File
pub mod Dir
pub mod Namei
pub mod Tests
