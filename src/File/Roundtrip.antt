-- ===== src/File/Roundtrip.antt =====
-- A file that src/file.c has cut into chunks, read through its list.
use cominix_fs.Prelude.{
  ℕ, ◌+◌, ◌*◌, ◌<◌, ◌≤◌, ◌≡◌, sym, ap, subst, ◌∙◌, Bool, Option, some, List, [], ◌∷◌, ◌++◌, arith,
  length, take, drop,
}
use cominix_fs.BitOps.{BitOps}
use cominix_fs.Bitmap.Alloc.{ZmapOk}
use cominix_fs.Chunk.{ChunkEntry}
use cominix_fs.Chunk.Alloc.{HeapOk}
use cominix_fs.Chunk.Storage.{Writable}
use cominix_fs.Chunk.Table.{Stored, Table}
use cominix_fs.File.{chunk_file, chunked_file_read}
use cominix_fs.File.Cut.{chunks_of, Promises, CutOk}
use cominix_fs.File.Read.{content, IsChunkedFile, chunked_file_read-content}
use cominix_fs.File.Marked.{chunked-marked, chunked-head, chunked-size}
use cominix_fs.File.Replace.{set_list}
use cominix_fs.File.Store.{Store}
use cominix_fs.Fs.{Fs, Run, ok}
use cominix_fs.Inode.{Inode, switch_inode_to_chunked}
use cominix_fs.LinkedList.Append.{Guarded, entry_count}
use cominix_fs.LinkedList.Search.{Blocks}
use cominix_fs.LinkedList.Segment.{moved, Seg-Blocks, entries_of-append}
use cominix_fs.File.Begin.{HasZones}
use cominix_fs.File.Finish.{chunk_file-Finished}

module _ (kernel_read : ℕ → ℕ → Option (List ℕ)) (kmalloc : ℕ → Bool)
    (md5_hash : List ℕ → Option (List ℕ)) (ops : BitOps) (md5 : List ℕ → List ℕ)
    (Occurs : List ℕ → Type 0) (file : List ℕ)
    (k : Promises kernel_read kmalloc md5_hash ops md5 Occurs file) (s : Fs) (t : Table)
    (store : Store md5 Occurs s t) (zmap : ZmapOk s) (guarded : Guarded s) (zs : List ℕ)
    (zones : HasZones s zs (length file))
    (room : s.sb.heap_brk + length file + 47 * chunks_of (length file) < s.sb.max_brk) where
  cut-IsChunkedFile :
      (s₀ : Fs) (head : ℕ) (run : Run (Option (ℕ × ℕ × ℕ)))
      (cut : CutOk kernel_read kmalloc md5_hash ops md5 Occurs file k s₀ 0 head head [] run)
      (i : Inode)
      → 10 ≤ length i.i_data
      → i.i_size ≡ length file
      → IsChunkedFile
          (moved s₀ cut.brk cut.disk cut.zmap)
          (set_list head
            (entry_count s₀ cut.full cut.last)
            cut.last_block
            (switch_inode_to_chunked i))
          cut.chunks
          (cut.full ++ (cut.last ∷ []))
  cut-IsChunkedFile s₀ head run cut i data_size file_size =
      let n = entry_count s₀ cut.full cut.last in
      record {
        marked = chunked-marked i data_size head n cut.last_block;
        listed =
            subst (λ b. Blocks (moved s₀ cut.brk cut.disk cut.zmap) b (cut.full ++ (cut.last ∷ [])))
              (sym (chunked-head i data_size head n cut.last_block))
              (Seg-Blocks (moved s₀ cut.brk cut.disk cut.zmap) head cut.last_block cut.full cut.last
                cut.heap cut.list.seg cut.list.end_block);
        entries = entries_of-append cut.full cut.last ∙ cut.listed;
        stored = cut.stored;
        sized =
            chunked-size i data_size head n cut.last_block ∙ file_size ∙ ap length (sym cut.bytes);
        size_small =
            omega (arith, chunked-size i data_size head n cut.last_block, file_size, k.size_small);
      }

  -- `chunk_file` succeeds, and an inode that gets its list is a chunked file with the same bytes.
  abbrev Chunked : Inode → Type 0
  Chunked i =
      (head : ℕ) × (end : ℕ) × (n : ℕ) × (s' : Fs) × (cs : List Stored) × (blocks : List
        (List ChunkEntry))
      × (chunk_file kernel_read kmalloc md5_hash ops (length file) s ≡ ok (some (head, end, n)) s')
      × HeapOk s'
      × IsChunkedFile s' (set_list head n end (switch_inode_to_chunked i)) cs blocks
      × (content cs ≡ file)

  chunk_file-Chunked : (i : Inode) → 10 ≤ length i.i_data → i.i_size ≡ length file → Chunked i
  chunk_file-Chunked i data_size file_size =
      let (head, m, d, run, cut, finished, grows, others) =
        chunk_file-Finished kernel_read kmalloc md5_hash ops md5 Occurs file k s t store zmap
          guarded zs zones room in
      (
        head,
        cut.last_block,
        entry_count s cut.full cut.last,
        moved s cut.brk cut.disk cut.zmap,
        cut.chunks,
        cut.full ++ (cut.last ∷ []),
        finished,
        cut.heap,
        cut-IsChunkedFile (moved s s.sb.heap_brk d m) head run cut i data_size file_size,
        cut.bytes,
      )

  -- Let the kernel read a file of less than 2 ^ 63 bytes in full, have memory, and give digests,
  -- and let no two different byte strings have the same first 8 bytes of their digests among the
  -- file's chunks and the stored chunks, whose hashes are those of their bytes. On a valid heap
  -- layout whose buckets hold the chunks of a table and valid zone maps in which the zone of the
  -- extra super block is taken, with free zones enough for the list and with room in the heap for
  -- the file's bytes and 47 more for each 2 KB begun, `chunk_file` ends without a fault. An inode
  -- with room for at least ten zones and with the file's size that gets the list and the mark is
  -- then read at a position inside the file, with a positive count that the user's buffer can take:
  -- the read gives the file's bytes from that position on, at least one, at most `count`, and none
  -- past the file's end.
  pub chunked_file_read-chunk_file :
      (i : Inode) (copy_to_user : ℕ → ℕ → Bool) (count pos : ℕ)
      → 10 ≤ length i.i_data
      → i.i_size ≡ length file
      → Writable copy_to_user count
      → pos < length file
      → 0 < count
      → (head : ℕ) × (end : ℕ) × (n : ℕ) × (s' : Fs) × (m : ℕ) × (chunk_file kernel_read kmalloc
            md5_hash ops
            (length file)
            s
          ≡ ok (some (head, end, n)) s')
        × (chunked_file_read copy_to_user
              (set_list head n end (switch_inode_to_chunked i))
              count
              pos
              s'
            ≡ ok (take m (drop pos file), pos + m) s')
        × (0 < m)
        × (m ≤ count)
        × (pos + m ≤ length file)
  chunked_file_read-chunk_file i copy_to_user count pos data_size file_size user inside some_bytes =
      let (head, end, n, s', cs, blocks, run, heap, is_file, same) =
        chunk_file-Chunked i data_size file_size in
      let sized : (set_list head n end (switch_inode_to_chunked i)).i_size ≡ length file =
        chunked-size i data_size head n end ∙ file_size in
      let (m, read, most, within, progress) =
        chunked_file_read-content copy_to_user s' (set_list head n end (switch_inode_to_chunked i))
          cs blocks count pos heap is_file user (omega (arith, sized)) in
      (
        head,
        end,
        n,
        s',
        m,
        run,
        read ∙ ap (λ f. ok (take m (drop pos f), pos + m) s') same,
        progress some_bytes,
        most,
        omega (arith, sized),
      )
