-- ===== src/File/Cut/Step.antt =====
-- One round of the loop of `chunk_and_replace` of src/file.c.
use cominix_fs.Prelude.{
  ℕ, suc, ◌+◌, ◌-◌, ◌<◌, ◌≤◌, ◌≢◌, ◌≡◌, sym, ap, ◌∙◌, Bool, Option, inl, inr, List, [], ◌∷◌, ◌++◌,
  arith, length, take, drop, length-take, length-drop, ==_ne, ==_self, lt→leb,
}
use cominix_fs.BitOps.{BitOps}
use cominix_fs.Cdc.Bounds.{cdc_get_chunk_size_bounds}
use cominix_fs.Chunk.{ChunkEntry}
use cominix_fs.Chunk.Alloc.{hashtable_pos}
use cominix_fs.Chunk.Contract.{entry}
use cominix_fs.Chunk.Table.{Stored, IsStored, Grows, IsStored-Grows, Grows-trans, Table}
use cominix_fs.Disk.{Disk}
use cominix_fs.File.{first, place_chunk, chunk_loop}
use cominix_fs.File.Store.{place_chunk-Placed}
use cominix_fs.Fs.{Bits, Fs, ok}
use cominix_fs.LinkedList.{entry_of, ll_append}
use cominix_fs.LinkedList.Append.{entry_count}
use cominix_fs.LinkedList.Frame.{Keeps, Keeps-trans}
use cominix_fs.LinkedList.Grow.{Ready-less, ll_append-Appended}
use cominix_fs.LinkedList.Heap.{HeapOk-zones, Grows-zones, Holds-zones}
use cominix_fs.LinkedList.Search.{entries_of}
use cominix_fs.LinkedList.Segment.{moved}
use cominix_fs.LinkedList.Write.{IsEntry}
use cominix_fs.File.Cut.{chunks_of, chunk_size_at, Promises, Round, fill_buffer-take}

module _ (kernel_read : ℕ → ℕ → Option (List ℕ)) (kmalloc : ℕ → Bool)
    (md5_hash : List ℕ → Option (List ℕ)) (ops : BitOps) (md5 : List ℕ → List ℕ)
    (Occurs : List ℕ → Type 0) (file : List ℕ)
    (k : Promises kernel_read kmalloc md5_hash ops md5 Occurs file) where
  module _ (pos : ℕ) (inside : pos < length file) where
    abbrev pub n : ℕ
    n = chunk_size_at kernel_read kmalloc md5_hash ops md5 Occurs file pos

    abbrev pub buf : List ℕ
    buf = take n (drop pos file)

    pub n_bounds :
        (0 < n)
        × (n ≤ length file - pos)
        × (chunks_of (length file - pos - n) + 1 ≤ chunks_of (length file - pos))
    n_bounds =
        let (some_bytes, fits, most, enough) =
          cdc_get_chunk_size_bounds (λ q. first (kernel_read q 1)) (length file) pos inside
            k.size_small in
        (some_bytes, fits, elim enough [ inl large ↦ omega arith | inr all ↦ omega arith ])

    pub length-buf : length buf ≡ n
    length-buf = omega (arith, length-take n (drop pos file), length-drop pos file, n_bounds)

    -- one round, when the rest of the loop is known
    round :
        (fuel head end : ℕ) (s : Fs) (full : List (List ChunkEntry)) (last : List ChunkEntry)
        (c : Stored) (brk : ℕ) (d : Disk) (end' : ℕ) (d' : Disk) (m : List Bits)
        (full' : List (List ChunkEntry)) (last' : List ChunkEntry)
        → place_chunk kernel_read kmalloc md5_hash ops (md5 buf) buf s
          ≡ ok c.place (moved s brk d s.s_zmap)
        → c.place ≢ 0
        → ll_append ops end (entry_count s full last) (entry_of c.place n) (moved s brk d s.s_zmap)
          ≡ ok (end', entry_count s full' last') (moved s brk d' m)
        → chunk_loop kernel_read kmalloc md5_hash ops
            (suc fuel)
            (length file)
            pos
            end
            (entry_count s full last)
            s
          ≡ chunk_loop kernel_read kmalloc md5_hash ops fuel
              (length file)
              (pos + n)
              end'
              (entry_count s full' last')
              (moved s brk d' m)
    unfolding chunk_loop
    round fuel head end s full last c brk d end' d' m full' last' placed some_place appended = rw (
      lt→leb (length file) pos inside,
      ==_ne n 0 (λ z. omega (arith, n_bounds)),
      k.memory n,
      fill_buffer-take kernel_read kmalloc md5_hash ops md5 Occurs file k n pos s n_bounds.0
          n_bounds.1,
      length-buf,
      ==_self n,
      k.digests buf,
      placed,
      ==_ne c.place 0 some_place,
      appended,
    )

    -- what a round leaves for the next
    abbrev pub RoundOk : Fs → Table → ℕ → ℕ → List (List ChunkEntry) → List ChunkEntry → Type 0
    RoundOk s t head end full last =
        (end' : ℕ) × (brk : ℕ) × (d : Disk) × (m : List Bits) × (t' : Table) × (full' : List
          (List ChunkEntry))
        × (last' : List ChunkEntry) × (zs' : List ℕ) × (c : Stored) × ((fuel : ℕ)
            → chunk_loop kernel_read kmalloc md5_hash ops (suc fuel) (length file) pos end
                (entry_count s full last) s
              ≡ chunk_loop kernel_read kmalloc md5_hash ops fuel (length file) (pos + n) end'
                  (entry_count s full' last') (moved s brk d m))
        × Round kernel_read kmalloc md5_hash ops md5 Occurs file k (moved s brk d m) t' head end'
            full' last' zs' (length file - pos - n)
        × (entries_of full' ++ last' ≡ (entries_of full ++ last) ++ (entry c ∷ []))
        × IsStored (moved s brk d m) c
        × (c.payload ≡ buf)
        × Grows s (moved s brk d m)
        × Keeps s end brk d m end'

    pub Round-RoundOk :
        (s : Fs) (t : Table) (head end : ℕ) (full : List (List ChunkEntry)) (last : List ChunkEntry)
        (zs : List ℕ)
        → Round kernel_read kmalloc md5_hash ops md5 Occurs file k s t head end full last zs
            (length file - pos)
        → RoundOk s t head end full last
    Round-RoundOk s t head end full last zs r =
        let left = length file - pos - n in
        let ready₀ =
          Ready-less s head end full last zs (chunks_of left + 1) (chunks_of (length file - pos))
            n_bounds.2 r.ready in
        let (c, brk, d, t', placed, st, same, store, grows, ready, brk_le, others) =
          place_chunk-Placed kernel_read kmalloc md5_hash ops md5 Occurs k.apart k.hash_small s t
            r.store buf (k.occur pos inside) (omega (arith, length-buf, n_bounds))
            (omega (arith, length-buf, n_bounds, r.room)) head end full last zs (chunks_of left + 1)
            ready₀ in
        let s₁ = moved s brk d s.s_zmap in
        let size : c.head.chunk_length ≡ n = st.sized ∙ ap length same ∙ length-buf in
        let some_place : c.place ≢ 0 = λ z. omega (arith, st.lo, hashtable_pos s₁ store.heap) in
        let small : IsEntry (entry_of c.place n) = record {
          location_small = omega (arith, st.hi, store.heap.below, store.heap.addressable);
          size_small = omega (arith, st.hi, size, store.heap.below, store.heap.addressable);
          some_data = n_bounds.0;
        } in
        let (end', d', m, full', last', zs', appended, ready', listed, same_heap, keeps) =
          ll_append-Appended ops s₁ store.heap head end full last zs (chunks_of left) ready
            (entry_of c.place n) small in
        let heap = HeapOk-zones s₁ store.heap d' m same_heap in
        let grows' = Grows-zones s₁ store.heap d' m same_heap in
        (
          end',
          brk,
          d',
          m,
          t',
          full',
          last',
          zs',
          c,
          λ fuel.
              round fuel head end s full last c brk d end' d' m full' last' placed some_place
                appended,
          record {
            store = record {
              heap = heap;
              holds = Holds-zones s₁ store.heap d' m same_heap t' store.holds;
              hashed = store.hashed;
            };
            ready = ready';
            room = omega (arith, brk_le, length-buf, n_bounds, r.room);
          },
          listed ∙ ap (λ i. (entries_of full ++ last) ++ (entry_of c.place i ∷ [])) (sym size),
          IsStored-Grows grows' st,
          same,
          Grows-trans grows grows',
          Keeps-trans s end brk d s.s_zmap end brk d' m end'
              (λ b owned ne. (others b owned, owned, ne)) keeps,
        )
