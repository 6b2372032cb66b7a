-- ===== src/File/Cut/Loop.antt =====
-- All rounds of the loop of `chunk_and_replace` of src/file.c.
use cominix_fs.Prelude.{
  ℕ, zero, suc, ◌+◌, ◌-◌, ◌<◌, ◌≤◌, ◌≡◌, sym, ap, ap₂, subst, ◌∙◌, Bool, Option, inl, inr, List, [],
  ◌∷◌, ◌++◌, map, append_assoc, arith, length, drop, take-append-drop, leb, leb→le, Bool-cases,
}
use cominix_fs.BitOps.{BitOps}
use cominix_fs.Chunk.{ChunkEntry}
use cominix_fs.Chunk.Contract.{entry}
use cominix_fs.Chunk.Table.{Stored, IsStored, Grows, IsStored-Grows, Grows-trans, Table}
use cominix_fs.Disk.{Disk}
use cominix_fs.File.{chunk_loop}
use cominix_fs.File.Read.{content}
use cominix_fs.Fs.{Bits, Fs, Run}
use cominix_fs.LinkedList.Frame.{Keeps, Keeps-trans}
use cominix_fs.LinkedList.Append.{entry_count}
use cominix_fs.LinkedList.Search.{entries_of}
use cominix_fs.LinkedList.Segment.{moved}
use cominix_fs.File.Cut.{Promises, CutOk, Round, loop_end, drop-drop}
use cominix_fs.File.Cut.Step.{n, buf, n_bounds, length-buf, Round-RoundOk}

module _ (kernel_read : ℕ → ℕ → Option (List ℕ)) (kmalloc : ℕ → Bool)
    (md5_hash : List ℕ → Option (List ℕ)) (ops : BitOps) (md5 : List ℕ → List ℕ)
    (Occurs : List ℕ → Type 0) (file : List ℕ)
    (k : Promises kernel_read kmalloc md5_hash ops md5 Occurs file) where
  at_end :
      (pos : ℕ) (s : Fs) (t : Table) (fuel head end : ℕ) (full : List (List ChunkEntry))
      (last : List ChunkEntry) (zs : List ℕ)
      → pos ≡ length file
      → Round kernel_read kmalloc md5_hash ops md5 Occurs file k s t head end full last zs
          (length file - pos)
      → CutOk kernel_read kmalloc md5_hash ops md5 Occurs file k s pos head end
          (entries_of full ++ last)
          (chunk_loop kernel_read kmalloc md5_hash ops
            (suc fuel)
            (length file)
            pos
            end
            (entry_count s full last)
            s)
  at_end pos s t fuel head end full last zs e round =
      let none : length file - pos ≡ 0 = omega arith in
      subst
        (λ p.
          CutOk kernel_read kmalloc md5_hash ops md5 Occurs file k s p head end
            (entries_of full ++ last)
            (chunk_loop kernel_read kmalloc md5_hash ops (suc fuel) (length file) p end
              (entry_count s full last) s))
        (sym e)
        (loop_end kernel_read kmalloc md5_hash ops md5 Occurs file k fuel end head s t full last zs
          (subst
            (Round kernel_read kmalloc md5_hash ops md5 Occurs file k s t head end full last zs)
            none round))

  -- A round and what the loop makes of the rest are together what it makes of the file from `pos`.
  cut_more :
      (pos : ℕ) (inside : pos < length file) (s : Fs) (head end brk : ℕ) (d : Disk) (m : List Bits)
      (end' : ℕ) (entries entries' : List ChunkEntry) (c : Stored)
      (run run' : Run (Option (ℕ × ℕ × ℕ)))
      → run ≡ run'
      → entries' ≡ entries ++ (entry c ∷ [])
      → IsStored (moved s brk d m) c
      → c.payload ≡ buf kernel_read kmalloc md5_hash ops md5 Occurs file k pos inside
      → Grows s (moved s brk d m)
      → Keeps s end brk d m end'
      → CutOk kernel_read kmalloc md5_hash ops md5 Occurs file k
          (moved s brk d m)
          (pos + n kernel_read kmalloc md5_hash ops md5 Occurs file k pos inside)
          head
          end'
          entries'
          run'
      → CutOk kernel_read kmalloc md5_hash ops md5 Occurs file k s pos head end entries run
  unfolding content
  cut_more pos inside s head end brk d m end' entries entries' c run run' step listed st same grows
        keeps rest =
      let size = n kernel_read kmalloc md5_hash ops md5 Occurs file k pos inside in
      record {
        last_block = rest.last_block;
        brk = rest.brk;
        disk = rest.disk;
        zmap = rest.zmap;
        full = rest.full;
        last = rest.last;
        chunks = c ∷ rest.chunks;
        ends = step ∙ rest.ends;
        heap = rest.heap;
        grows = Grows-trans grows rest.grows;
        keeps =
            Keeps-trans s end brk d m end' rest.brk rest.disk rest.zmap rest.last_block keeps
              rest.keeps;
        list = rest.list;
        listed =
            rest.listed
            ∙ ap (λ es. es ++ map entry rest.chunks) listed
            ∙ append_assoc entries (entry c ∷ []) (map entry rest.chunks);
        stored = (
          IsStored-Grows rest.grows st,
          omega (
            arith,
            st.sized,
            ap length same,
            length-buf kernel_read kmalloc md5_hash ops md5 Occurs file k pos inside,
            n_bounds kernel_read kmalloc md5_hash ops md5 Occurs file k pos inside,
          ),
          rest.stored,
        );
        bytes =
            ap₂ (λ xs ys. xs ++ ys) same (rest.bytes ∙ sym (drop-drop pos size file))
            ∙ take-append-drop size (drop pos file);
      }

  -- The loop from `pos` on cuts the rest of the file into chunks that are stored and listed.
  pub chunk_loop-CutOk :
      (fuel pos : ℕ) (s : Fs) (t : Table) (head end : ℕ) (full : List (List ChunkEntry))
      (last : List ChunkEntry) (zs : List ℕ)
      → pos ≤ length file
      → length file < pos + fuel
      → Round kernel_read kmalloc md5_hash ops md5 Occurs file k s t head end full last zs
          (length file - pos)
      → CutOk kernel_read kmalloc md5_hash ops md5 Occurs file k s pos head end
          (entries_of full ++ last)
          (chunk_loop kernel_read kmalloc md5_hash ops fuel
            (length file)
            pos
            end
            (entry_count s full last)
            s)
  chunk_loop-CutOk zero pos s t head end full last zs le enough round = absurd (omega arith)
  chunk_loop-CutOk (suc fuel) pos s t head end full last zs le enough round =
      elim (Bool-cases (leb (length file) pos)) [
        | inl done ↦
            at_end pos s t fuel head end full last zs (omega (arith, leb→le (length file) pos done))
              round
        | inr more ↦
            let inside : pos < length file = ground arith in
            let size = n kernel_read kmalloc md5_hash ops md5 Occurs file k pos inside in
            let bounds = n_bounds kernel_read kmalloc md5_hash ops md5 Occurs file k pos inside in
            let (
              end', brk, d, m, t', full', last', zs', c, run, next, listed, st, same, grows, keeps,
            ) =
              Round-RoundOk kernel_read kmalloc md5_hash ops md5 Occurs file k pos inside s t head
                end full last zs round in
            let s' = moved s brk d m in
            let left : length file - pos - size ≡ length file - (pos + size) = omega arith in
            cut_more pos inside s head end brk d m end' (entries_of full ++ last)
              (entries_of full' ++ last') c _ _ (run fuel) listed st same grows keeps
              (chunk_loop-CutOk fuel (pos + size) s' t' head end' full' last' zs'
                (omega (arith, bounds)) (omega (arith, bounds))
                (subst
                  (Round kernel_read kmalloc md5_hash ops md5 Occurs file k s' t' head end' full'
                    last' zs')
                  left next))
      ]
