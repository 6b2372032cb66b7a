-- ===== src/File/Others.antt =====
-- What `chunk_and_replace` of src/file.c leaves of the files that were chunked before.
use cominix_fs.Prelude.{
  ℕ, ◌+◌, ◌*◌, ◌<◌, ◌≤◌, ◌≡◌, sym, subst, ◌∙◌, Bool, Option, some, List, [], ◌∷◌, length,
}
use cominix_fs.BitOps.{BitOps}
use cominix_fs.Bitmap.Alloc.{ZmapOk}
use cominix_fs.Chunk.{ChunkEntry}
use cominix_fs.Chunk.Table.{Stored, Table, Grows, IsStored-Grows}
use cominix_fs.Disk.{Disk}
use cominix_fs.File.{get_list_head, chunk_file}
use cominix_fs.File.Begin.{HasZones}
use cominix_fs.File.Cut.{chunks_of, Promises}
use cominix_fs.File.Finish.{chunk_file-Finished}
use cominix_fs.File.Read.{IsChunkedFile, AllStored}
use cominix_fs.File.Store.{Store}
use cominix_fs.Fs.{Bits, Fs, ok}
use cominix_fs.Inode.{Inode}
use cominix_fs.LinkedList.Append.{Guarded, entry_count}
use cominix_fs.LinkedList.Frame.{SameBlock, Entries-same, link_same}
use cominix_fs.LinkedList.Search.{Blocks, link_at}
use cominix_fs.LinkedList.Segment.{moved, Owned}

-- The blocks of a list are zones in use.
abbrev pub OwnedBlocks : Fs → ℕ → List (List ChunkEntry) → Type 0
OwnedBlocks s b [] = Unit
OwnedBlocks s b (es ∷ more) = Owned s b × OwnedBlocks s (link_at s b) more

AllStored-Grows : {s s' : Fs} → Grows s s' → (cs : List Stored) → AllStored s cs → AllStored s' cs
AllStored-Grows g [] h = tt
AllStored-Grows g (c ∷ cs) (st, positive, rest) =
    (IsStored-Grows g st, positive, AllStored-Grows g cs rest)

module _ (s : Fs) (lo : 9 ≤ s.s_blocksize_bits) (brk : ℕ) (d : Disk) (m : List Bits)
    (same : (c : ℕ) → Owned s c → SameBlock s d c) where
  -- a list whose blocks keep their bytes
  Blocks-same :
      (b : ℕ) (blocks : List (List ChunkEntry))
      → OwnedBlocks s b blocks
      → Blocks s b blocks
      → Blocks (moved s brk d m) b blocks
  Blocks-same b [] owned h = h
  Blocks-same b (es ∷ []) (owned, rest) (readable, entries, last) = (
    readable,
    Entries-same s lo brk d m b 0 es (same b owned) entries,
    link_same s lo brk d m b (same b owned) ∙ last,
  )
  Blocks-same b (es ∷ (fs ∷ more)) (owned, rest) (readable, entries, all, linked, blocks) =
      let link = link_same s lo brk d m b (same b owned) in
      (
        readable,
        Entries-same s lo brk d m b 0 es (same b owned) entries,
        all,
        λ z. linked (sym link ∙ z),
        subst (λ a. Blocks (moved s brk d m) a (fs ∷ more)) (sym link)
            (Blocks-same (link_at s b) (fs ∷ more) rest blocks),
      )

module _ (kernel_read : ℕ → ℕ → Option (List ℕ)) (kmalloc : ℕ → Bool)
    (md5_hash : List ℕ → Option (List ℕ)) (ops : BitOps) (md5 : List ℕ → List ℕ)
    (Occurs : List ℕ → Type 0) (file : List ℕ)
    (k : Promises kernel_read kmalloc md5_hash ops md5 Occurs file) (s : Fs) (t : Table)
    (store : Store md5 Occurs s t) (zmap : ZmapOk s) (guarded : Guarded s) (zs : List ℕ)
    (zones : HasZones s zs (length file))
    (room : s.sb.heap_brk + length file + 47 * chunks_of (length file) < s.sb.max_brk) where
  -- Let the kernel read a file of less than 2 ^ 63 bytes in full, have memory, and give digests,
  -- and let no two different byte strings have the same first 8 bytes of their digests among the
  -- file's chunks and the stored chunks, whose hashes are those of their bytes. On a valid heap
  -- layout whose buckets hold the chunks of a table and valid zone maps in which the zone of the
  -- extra super block is taken, with free zones enough for the list and with room in the heap for
  -- the file's bytes and 47 more for each 2 KB begun, `chunk_file` ends without a fault. Every file
  -- that was a chunked file before, the blocks of its list being zones in use other than the extra
  -- super block's, is a chunked file with the same chunks and the same list afterwards.
  pub chunk_file-IsChunkedFile :
      (j : Inode) (cs : List Stored) (blocks : List (List ChunkEntry))
      → IsChunkedFile s j cs blocks
      → OwnedBlocks s (get_list_head j) blocks
      → (head : ℕ) × (end : ℕ) × (n : ℕ) × (s' : Fs) × (chunk_file kernel_read kmalloc md5_hash ops
            (length file)
            s
          ≡ ok (some (head, end, n)) s')
        × IsChunkedFile s' j cs blocks
  chunk_file-IsChunkedFile j cs blocks v owned =
      let (head, m, d, run, cut, finished, grows, others) =
        chunk_file-Finished kernel_read kmalloc md5_hash ops md5 Occurs file k s t store zmap
          guarded zs zones room in
      (
        head,
        cut.last_block,
        entry_count s cut.full cut.last,
        moved s cut.brk cut.disk cut.zmap,
        finished,
        record {
          marked = v.marked;
          listed =
              Blocks-same s store.heap.device.bits_lo cut.brk cut.disk cut.zmap others
                (get_list_head j) blocks owned v.listed;
          entries = v.entries;
          stored = AllStored-Grows grows cs v.stored;
          sized = v.sized;
          size_small = v.size_small;
        },
      )
