-- ===== src/File.antt =====
-- src/file.c: reading a chunked file, and cutting a file into chunks.
pub mod Read
pub mod Place
pub mod Replace
pub mod Store
pub mod Cut
pub mod Marked
pub mod Begin
pub mod Finish
pub mod Roundtrip
pub mod Others
use cominix_fs.Prelude.{
  ℕ, zero, suc, ◌+◌, ◌%◌, ◌^◌, ◌-◌, ◌*◌, Bool, true, false, not, Option, none, some, List, [], ◌∷◌,
  ◌++◌, leb, ◌==◌, if◌then◌else◌, length, get_or, take,
}
use cominix_fs.BitOps.{BitOps}
use cominix_fs.Cdc.{cdc_get_chunk_size}
use cominix_fs.Chunk.{
  ChunkHead, chunk_copy_into_buffer, chunk_search_hashtable, chunk_fill_hashtable,
}
use cominix_fs.Disk.{from_le}
use cominix_fs.Fs.{M, bug, hang, pure, ◌>>=◌, ◌>>◌, bug_on, defined_if}
use cominix_fs.Inode.{Inode, inode_is_chunked}
use cominix_fs.LinkedList.{entry_of, zero_out_block, ll_alloc_new_block, ll_append, ll_search_left}

unfoldable pub get_list_head : Inode → ℕ
get_list_head i = get_or i.i_data 1 0

-- The bytes that are copied to the user, and the position after them. The search for the chunk is
-- given `pos` rounds and one. Positions are words of 64 bits, and `pos` is not negative, as in every call of the kernel.
unfoldable pub chunked_file_read : (ℕ → ℕ → Bool) → Inode → ℕ → ℕ → M (List ℕ × ℕ)
chunked_file_read copy_to_user i count file_pos =
    if leb i.i_size file_pos then pure ([], file_pos) else do
      bug_on (not (inode_is_chunked i))
      found ← ll_search_left (suc file_pos) (get_list_head i) file_pos 0
      bug_on (found.0.location == 0)
      bug_on (found.0.size == 0)
      xs ←
          chunk_copy_into_buffer copy_to_user found.0 count ((file_pos + 2 ^ 64 - found.1) % 2 ^ 64)
      pure (xs, file_pos + length xs)

-- the byte that a read of one byte gives
unfoldable pub first : Option (List ℕ) → Option ℕ
first none = none
first (some []) = none
first (some (b ∷ bs)) = some b

-- What the kernel gives: `kernel_read` the bytes it reads at a position, at most as many as asked
-- for, or an error; `kmalloc` whether there is memory; `md5_hash` the 16 bytes of a digest, or an
-- error.
module _ (kernel_read : ℕ → ℕ → Option (List ℕ)) (kmalloc : ℕ → Bool)
    (md5_hash : List ℕ → Option (List ℕ)) (ops : BitOps) where
  -- The inner loop: `buf` is what is read so far of a buffer of `chunk_size` bytes. Every round
  -- asks for `chunk_size` bytes. The result is the buffer and the file's position, or an error.
  unfoldable pub fill_buffer : ℕ → ℕ → List ℕ → ℕ → M (Option (List ℕ × ℕ))
  fill_buffer zero chunk_size buf f_pos = λ _. hang
  fill_buffer (suc fuel) chunk_size buf f_pos =
      if leb chunk_size (length buf)
      then pure (some (buf, f_pos))
      else elim (kernel_read f_pos chunk_size) [
        | none ↦ pure none
        | some xs ↦ do
          defined_if (leb (length buf + length xs) chunk_size)
          fill_buffer fuel chunk_size (buf ++ xs) (f_pos + length xs)
      ]

  -- the chunk's place: where its hash is found, or where it is filled in
  unfoldable pub place_chunk : List ℕ → List ℕ → M ℕ
  place_chunk digest buf = do
    let hash = from_le (take 8 digest)
    location ← chunk_search_hashtable hash
    if location == 0
        then chunk_fill_hashtable
            (record { hash = hash; chunk_length = length buf; refcount = 0; flags = 0; next = 0 })
            buf
        else pure location

  -- The loop over the file: the position, the list's last block and its number of entries. An
  -- error of `kernel_read` ends it.
  unfoldable pub chunk_loop : ℕ → ℕ → ℕ → ℕ → ℕ → M (Option (ℕ × ℕ × ℕ))
  unfolding first
  chunk_loop zero i_size f_pos end ll_size = λ _. hang
  chunk_loop (suc fuel) i_size f_pos end ll_size =
      if leb i_size f_pos then pure (some (f_pos, end, ll_size)) else do
        let chunk_size = cdc_get_chunk_size (λ p. first (kernel_read p 1)) i_size f_pos
        bug_on (chunk_size == 0)
        bug_on (not (kmalloc chunk_size))
        got ← fill_buffer (suc chunk_size) chunk_size [] f_pos
        elim got [
          | none ↦ pure none
          | some r ↦ do
            bug_on (not (length r.0 == chunk_size))
            elim (md5_hash r.0) [
              | none ↦ λ _. bug
              | some digest ↦ do
                location ← place_chunk digest r.0
                bug_on (location == 0)
                list ← ll_append ops end ll_size (entry_of location chunk_size)
                chunk_loop fuel i_size r.1 list.0 list.1
            ]
        ]

  -- The first part of `chunk_and_replace`, up to where the file's old blocks are given back: the
  -- list's head, its last block and its number of entries. Every round takes a byte at least.
  unfoldable pub chunk_file : ℕ → M (Option (ℕ × ℕ × ℕ))
  chunk_file i_size = do
    head ← ll_alloc_new_block ops
    zero_out_block head
    done ← chunk_loop (suc i_size) i_size 0 head 0
    elim done [
      | none ↦ pure none
      | some r ↦ do bug_on (not (r.0 == i_size)); pure (some (head, r.1, r.2))
    ]
