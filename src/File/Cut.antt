-- ===== src/File/Cut.antt =====
-- The loop of `chunk_and_replace` of src/file.c over a file: what a run of it leaves.
pub mod Step
pub mod Loop
use cominix_fs.Prelude.{
  ℕ, zero, suc, ◌+◌, ◌-◌, ◌*◌, ◌/◌, ◌^◌, ◌<◌, ◌≤◌, ◌≢◌, ◌≡◌, refl, sym, ap, ap₂, subst, ◌∙◌, Bool,
  true, Option, some, inl, inr, List, [], ◌∷◌, ◌++◌, map, append-nil, append_assoc, arith, length,
  take, drop, length-take, length-drop, take-append-drop, ==_ne, ==_self, leb, leb→le, le→leb,
  lt→leb, Bool-cases,
}
use cominix_fs.BitOps.{BitOps}
use cominix_fs.Cdc.{cdc_get_chunk_size}
use cominix_fs.Cdc.Bounds.{cdc_get_chunk_size_bounds}
use cominix_fs.Chunk.{ChunkEntry}
use cominix_fs.Chunk.Alloc.{HeapOk, hashtable_pos}
use cominix_fs.Chunk.Contract.{entry}
use cominix_fs.Chunk.Table.{Stored, IsStored, Grows, IsStored-Grows, Grows-trans, Grows-refl, Table}
use cominix_fs.Disk.{Disk}
use cominix_fs.File.{first, fill_buffer, place_chunk, chunk_loop}
use cominix_fs.File.Read.{content, AllStored}
use cominix_fs.File.Store.{hash_of, Store, place_chunk-Placed}
use cominix_fs.Fs.{Bits, Fs, Run, ok}
use cominix_fs.LinkedList.{entry_of, ll_append}
use cominix_fs.LinkedList.Append.{Growing, entry_count}
use cominix_fs.LinkedList.Frame.{Keeps}
use cominix_fs.LinkedList.Grow.{Ready, Ready-less, ll_append-Appended}
use cominix_fs.LinkedList.Heap.{HeapOk-zones, Grows-zones, Holds-zones}
use cominix_fs.LinkedList.Search.{entries_of}
use cominix_fs.LinkedList.Segment.{moved}
use cominix_fs.LinkedList.Write.{IsEntry}

-- An upper bound on the chunks of `r` bytes: all but the last have 2 KB at least.
abbrev pub chunks_of : ℕ → ℕ
chunks_of r = (r + 2047) / 2048

drop-all : {A : Type 0} → (n : ℕ) (xs : List A) → length xs ≤ n → drop n xs ≡ []
drop-all zero [] h = refl
drop-all zero (x ∷ xs) h = absurd (omega arith)
drop-all (suc n) [] h = refl
drop-all (suc n) (x ∷ xs) h = drop-all n xs (omega arith)

pub drop-drop : {A : Type 0} → (m n : ℕ) (xs : List A) → drop n (drop m xs) ≡ drop (m + n) xs
drop-drop zero n xs = let z : n ≡ 0 + n = omega arith in ap (λ k. drop k xs) z
drop-drop (suc m) n [] = drop-all n [] (omega arith) ∙ sym (drop-all (suc m + n) [] (omega arith))
drop-drop (suc m) n (x ∷ xs) =
    let z : suc (m + n) ≡ suc m + n = omega arith in drop-drop m n xs ∙ ap (λ k. drop k (x ∷ xs)) z

-- What the kernel gives: reads of the file that are as long as they can be, memory, and digests;
-- `Occurs` holds of the byte strings that are hashed, no two of which have the same hash.
module _ (kernel_read : ℕ → ℕ → Option (List ℕ)) (kmalloc : ℕ → Bool)
    (md5_hash : List ℕ → Option (List ℕ)) (ops : BitOps) (md5 : List ℕ → List ℕ)
    (Occurs : List ℕ → Type 0) (file : List ℕ) where
  abbrev pub chunk_size_at : ℕ → ℕ
  chunk_size_at p = cdc_get_chunk_size (λ q. first (kernel_read q 1)) (length file) p

  -- what the kernel and the digests promise
  pub record Promises : Type 0 where
    pub reads : (p n : ℕ) → kernel_read p n ≡ some (take n (drop p file))
    pub memory : (n : ℕ) → kmalloc n ≡ true
    pub digests : (xs : List ℕ) → md5_hash xs ≡ some (md5 xs)
    pub hash_small : (xs : List ℕ) → hash_of md5 xs < 2 ^ 64
    pub apart : (xs ys : List ℕ) → Occurs xs → Occurs ys → hash_of md5 xs ≡ hash_of md5 ys → xs ≡ ys
    pub occur : (p : ℕ) → p < length file → Occurs (take (chunk_size_at p) (drop p file))
    pub size_small : length file < 2 ^ 63

  module _ (k : Promises) where
    filled_up :
        (fuel n : ℕ) (buf : List ℕ) (p : ℕ) (s : Fs)
        → 0 < fuel
        → n ≤ length buf
        → fill_buffer kernel_read kmalloc md5_hash ops fuel n buf p s ≡ ok (some (buf, p)) s
    unfolding fill_buffer
    filled_up zero n buf p s some_fuel all = absurd (omega arith)
    filled_up (suc fuel) n buf p s some_fuel all = rw (le→leb n (length buf) all)

    -- one read fills the buffer
    pub fill_buffer-take :
        (n p : ℕ) (s : Fs)
        → 0 < n
        → n ≤ length file - p
        → fill_buffer kernel_read kmalloc md5_hash ops (suc n) n [] p s
          ≡ ok (some (take n (drop p file), p + n)) s
    unfolding fill_buffer
    fill_buffer-take n p s pos inside =
        let buf = take n (drop p file) in
        let all : length buf ≡ n = omega (arith, length-take n (drop p file), length-drop p file) in
        let fits : leb (0 + length buf) n ≡ true = le→leb (0 + length buf) n (omega arith) in
        rw (
          lt→leb n 0 pos,
          k.reads p n,
          fits,
          filled_up n n buf (p + length buf) s pos (omega arith),
          all,
        )

    -- The chunks of the file from `pos` on: a run of the loop ends with them in the list, stored,
    -- and the chunks stored before are still there.
    pub record CutOk (s : Fs) (pos head end : ℕ) (entries : List ChunkEntry)
        (run : Run (Option (ℕ × ℕ × ℕ))) : Type 0 where
      pub last_block : ℕ
      pub brk : ℕ
      pub disk : Disk
      pub zmap : List Bits
      pub full : List (List ChunkEntry)
      pub last : List ChunkEntry
      pub chunks : List Stored
      pub ends :
          run ≡ ok (some (length file, last_block, entry_count s full last)) (moved s brk disk zmap)
      pub heap : HeapOk (moved s brk disk zmap)
      pub grows : Grows s (moved s brk disk zmap)
      pub keeps : Keeps s end brk disk zmap last_block
      pub list : Growing (moved s brk disk zmap) head last_block full last
      pub listed : entries_of full ++ last ≡ entries ++ map entry chunks
      pub stored : AllStored (moved s brk disk zmap) chunks
      pub bytes : content chunks ≡ drop pos file

    -- The state of a round: `r` bytes are left, with room for their chunks in heap and zones.
    pub record Round (s : Fs) (t : Table) (head end : ℕ) (full : List (List ChunkEntry))
        (last : List ChunkEntry) (zs : List ℕ) (r : ℕ) : Type 0 where
      pub store : Store md5 Occurs s t
      pub ready : Ready s head end full last zs (chunks_of r)
      pub room : s.sb.heap_brk + r + 47 * chunks_of r < s.sb.max_brk

    pub loop_end :
        (fuel end head : ℕ) (s : Fs) (t : Table) (full : List (List ChunkEntry))
        (last : List ChunkEntry) (zs : List ℕ)
        → Round s t head end full last zs 0
        → CutOk s (length file) head end (entries_of full ++ last) (
            chunk_loop kernel_read kmalloc md5_hash ops
              (suc fuel)
              (length file)
              (length file)
              end
              (entry_count s full last)
              s)
    unfolding chunk_loop content
    loop_end fuel end head s t full last zs round = record {
      last_block = end;
      brk = s.sb.heap_brk;
      disk = s.disk;
      zmap = s.s_zmap;
      full = full;
      last = last;
      chunks = [];
      ends = rw (le→leb (length file) (length file) (omega arith));
      heap = round.store.heap;
      grows = Grows-refl s;
      keeps = λ c owned ne. (λ o h. refl, owned, ne);
      list = round.ready.list;
      listed = sym (append-nil (entries_of full ++ last));
      stored = tt;
      bytes = sym (drop-all (length file) file (omega arith));
    }
