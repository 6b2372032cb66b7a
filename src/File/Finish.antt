-- ===== src/File/Finish.antt =====
-- The run of `chunk_and_replace` of src/file.c up to where the file's old blocks are given back.
use cominix_fs.Prelude.{
  ℕ, suc, ◌+◌, ◌-◌, ◌*◌, ◌<◌, ◌≡◌, sym, ap, subst, ◌∙◌, Bool, Option, some, List, [], arith, length,
  ==_self,
}
use cominix_fs.BitOps.{BitOps}
use cominix_fs.Bitmap.Alloc.{ZmapOk}
use cominix_fs.Chunk.Table.{Grows, Grows-trans, Table}
use cominix_fs.Disk.{Disk}
use cominix_fs.File.{chunk_file, chunk_loop}
use cominix_fs.File.Cut.{chunks_of, Promises, Round, CutOk}
use cominix_fs.File.Cut.Loop.{chunk_loop-CutOk}
use cominix_fs.File.Store.{Store}
use cominix_fs.Fs.{Bits, Fs, Run, M, ok}
use cominix_fs.LinkedList.Append.{Guarded, entry_count}
use cominix_fs.LinkedList.Heap.{Grows-zones}
use cominix_fs.LinkedList.Search.{entries_of}
use cominix_fs.LinkedList.Segment.{Owned, moved}
use cominix_fs.LinkedList.Frame.{SameBlock}
use cominix_fs.File.Begin.{HasZones, begin}

module _ (kernel_read : ℕ → ℕ → Option (List ℕ)) (kmalloc : ℕ → Bool)
    (md5_hash : List ℕ → Option (List ℕ)) (ops : BitOps) (md5 : List ℕ → List ℕ)
    (Occurs : List ℕ → Type 0) (file : List ℕ)
    (k : Promises kernel_read kmalloc md5_hash ops md5 Occurs file) (s : Fs) (t : Table)
    (store : Store md5 Occurs s t) (zmap : ZmapOk s) (guarded : Guarded s) (zs : List ℕ)
    (zones : HasZones s zs (length file))
    (room : s.sb.heap_brk + length file + 47 * chunks_of (length file) < s.sb.max_brk) where
  -- The run of `chunk_file`: what the loop leaves, and what was there before.
  abbrev pub Finished : Type 0
  Finished =
      (head : ℕ) × (m : List Bits) × (d : Disk) × (run : Run (Option (ℕ × ℕ × ℕ))) × (cut : CutOk
        kernel_read kmalloc md5_hash ops md5 Occurs file k (moved s s.sb.heap_brk d m) 0 head head
        [] run)
      × (chunk_file kernel_read kmalloc md5_hash ops (length file) s
          ≡ ok (some (head, cut.last_block, entry_count s cut.full cut.last))
              (moved s cut.brk cut.disk cut.zmap))
      × Grows s (moved s cut.brk cut.disk cut.zmap)
      × ((c : ℕ) → Owned s c → SameBlock s cut.disk c)

  pub chunk_file-Finished : Finished
  unfolding chunk_file entries_of
  chunk_file-Finished =
      let (head, m, d, zs', allocated, zeroed_out, first, same_heap, others) =
        begin kernel_read kmalloc md5_hash ops md5 Occurs file k s t store zmap guarded zs zones
          room in
      let s₀ = moved s s.sb.heap_brk d m in
      let nothing : length file ≡ length file - 0 = omega arith in
      let count : entry_count s₀ [] [] ≡ 0 = omega arith in
      let run : ℕ → M (Option (ℕ × ℕ × ℕ)) =
        chunk_loop kernel_read kmalloc md5_hash ops (suc (length file)) (length file) 0 head in
      let run_all : Run (Option (ℕ × ℕ × ℕ)) = run (entry_count s₀ [] []) s₀ in
      let cut : CutOk kernel_read kmalloc md5_hash ops md5 Occurs file k s₀ 0 head head [] run_all =
        chunk_loop-CutOk kernel_read kmalloc md5_hash ops md5 Occurs file k (suc (length file)) 0 s₀
          t head head [] [] zs' (omega arith) (omega arith)
          (subst (Round kernel_read kmalloc md5_hash ops md5 Occurs file k s₀ t head head [] [] zs')
            nothing first) in
      let ends = ap (λ c. run c s₀) (sym count) ∙ cut.ends in
      (
        head,
        m,
        d,
        run_all,
        cut,
        rw (allocated, zeroed_out, ends, ==_self (length file)),
        Grows-trans (Grows-zones s store.heap d m same_heap) cut.grows,
        λ c owned o h.
            let (same, owned', ne) = others c owned in (cut.keeps c owned' ne).0 o h ∙ same o h,
      )
