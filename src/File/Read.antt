-- ===== src/File/Read.antt =====
-- `chunked_file_read` of src/file.c.
use cominix_fs.Prelude.{
  ℕ, zero, suc, ◌+◌, ◌-◌, ◌%◌, ◌^◌, ◌<◌, ◌≤◌, ◌≡◌, refl, sym, ap, ◌∙◌, Bool, true, inl, inr, some,
  List, [], ◌∷◌, ◌++◌, map, arith, ==_ne, lt→leb, ltb, ltb→lt, Bool-cases, length, take, drop, min,
  length-append, length-take, length-drop,
}
use cominix_fs.Chunk.{ChunkEntry}
use cominix_fs.Chunk.Alloc.{HeapOk, hashtable_pos}
use cominix_fs.Chunk.Contract.{entry, chunk_copy_into_buffer-take}
use cominix_fs.Chunk.Storage.{Writable}
use cominix_fs.Chunk.Table.{Stored, IsStored}
use cominix_fs.File.{get_list_head, chunked_file_read}
use cominix_fs.Fs.{Fs, ok}
use cominix_fs.Inode.{Inode, inode_is_chunked}
use cominix_fs.LinkedList.Search.{Blocks, find_entry, found, entries_of, total, ll_search_left-find}

-- the bytes of a file: those of its chunks one behind the other
unfoldable pub content : List Stored → List ℕ
content [] = []
content (c ∷ cs) = c.payload ++ content cs

abbrev pub AllStored : Fs → List Stored → Type 0
AllStored s [] = Unit
AllStored s (c ∷ cs) = IsStored s c × (0 < c.head.chunk_length) × AllStored s cs

-- A chunked file of a mounted device: its inode is marked, its list has the places and lengths of
-- its chunks in order, each is stored and not empty, and its size is theirs together, and
-- not negative as an `loff_t`.
pub record IsChunkedFile (s : Fs) (i : Inode) (cs : List Stored) (blocks : List (List ChunkEntry))
    : Type 0 where
  pub marked : inode_is_chunked i ≡ true
  pub listed : Blocks s (get_list_head i) blocks
  pub entries : entries_of blocks ≡ map entry cs
  pub stored : AllStored s cs
  pub sized : i.i_size ≡ length (content cs)
  pub size_small : i.i_size < 2 ^ 63

total-map-entry :
    (s : Fs) (cs : List Stored) → AllStored s cs → total (map entry cs) ≡ length (content cs)
unfolding content total
total-map-entry s [] st = refl
total-map-entry s (c ∷ cs) (st, positive, more) =
    omega (arith, total-map-entry s cs more, length-append c.payload (content cs), st.sized)

drop-append :
    {A : Type 0} → (k : ℕ) (xs ys : List A) → k ≤ length xs → drop k (xs ++ ys) ≡ drop k xs ++ ys
drop-append zero xs ys h = refl
drop-append (suc k) [] ys h = absurd (omega arith)
drop-append (suc k) (x ∷ xs) ys h = drop-append k xs ys (omega arith)

drop_past :
    {A : Type 0}
    → (k : ℕ) (xs ys : List A) → length xs ≤ k
    → drop k (xs ++ ys) ≡ drop (k - length xs) ys
drop_past k [] ys h = let same : k ≡ k - 0 = omega arith in ap (λ m. drop m ys) same
drop_past zero (x ∷ xs) ys h = absurd (omega arith)
drop_past (suc k) (x ∷ xs) ys h =
    let same : k - length xs ≡ suc k - suc (length xs) = omega arith in
    drop_past k xs ys (omega arith) ∙ ap (λ m. drop m ys) same

take-append :
    {A : Type 0} → (n : ℕ) (xs ys : List A) → n ≤ length xs → take n (xs ++ ys) ≡ take n xs
take-append zero xs ys h = refl
take-append (suc n) [] ys h = absurd (omega arith)
take-append (suc n) (x ∷ xs) ys h = ap (λ zs. x ∷ zs) (take-append n xs ys (omega arith))

-- The chunk that position `pos` falls into when the first begins at `accum`: where it begins, and
-- what follows it in the file.
abbrev Found : Fs → ℕ → ℕ → List Stored → Type 0
Found s pos accum cs =
    (c : Stored) × (a : ℕ) × (rest : List ℕ) × (find_entry pos accum (map entry cs)
      ≡ (some (entry c), a))
    × IsStored s c
    × (0 < c.head.chunk_length)
    × (a ≤ pos)
    × (pos < a + c.head.chunk_length)
    × (a + c.head.chunk_length ≤ accum + length (content cs))
    × (drop (pos - accum) (content cs) ≡ drop (pos - a) c.payload ++ rest)

find_chunk :
    (s : Fs) (pos accum : ℕ) (cs : List Stored)
    → AllStored s cs
    → accum ≤ pos
    → pos < accum + length (content cs)
    → Found s pos accum cs
unfolding content find_entry
find_chunk s pos accum [] st le lt = absurd (omega arith)
find_chunk s pos accum (c ∷ cs) (st, positive, more) le lt =
    let n = c.head.chunk_length in
    let total : length (c.payload ++ content cs) ≡ n + length (content cs) =
      length-append c.payload (content cs) ∙ ap (λ k. k + length (content cs)) (sym st.sized) in
    elim (Bool-cases (ltb pos (accum + n))) [
      | inl e ↦
          let below = ltb→lt pos (accum + n) e in
          (
            c,
            accum,
            content cs,
            rw e,
            st,
            positive,
            le,
            below,
            omega (arith, total),
            drop-append (pos - accum) c.payload (content cs) (omega (arith, st.sized)),
          )
      | inr e ↦
          let above : accum + n ≤ pos = ground arith in
          let (d, a, rest, run, dst, dpos, lo, hi, end, bytes) =
            find_chunk s pos (accum + n) cs more above (omega (arith, total)) in
          let same : pos - accum - length c.payload ≡ pos - (accum + n) = omega (arith, st.sized) in
          (
            d,
            a,
            rest,
            rw e run,
            dst,
            dpos,
            lo,
            hi,
            omega (arith, total),
            drop_past (pos - accum) c.payload (content cs) (omega (arith, st.sized))
                ∙ ap (λ k. drop k (content cs)) same
                ∙ bytes,
          )
    ]

-- On a device with a valid heap layout, and for a chunked file of less than 2 ^ 63 bytes whose list
-- names its stored chunks in order, a read of `count` bytes at a position inside the file ends
-- without a fault when the user's buffer can take them. It gives the file's next `n` bytes from
-- that position on and moves the position behind them, where `n` is at most `count`, the file does
-- not end before, and `n` is positive if `count` is. Nothing is changed.
pub chunked_file_read-content :
    (copy_to_user : ℕ → ℕ → Bool) (s : Fs) (i : Inode) (cs : List Stored)
    (blocks : List (List ChunkEntry)) (count file_pos : ℕ)
    → HeapOk s
    → IsChunkedFile s i cs blocks
    → Writable copy_to_user count
    → file_pos < i.i_size
    → (n : ℕ) × (chunked_file_read copy_to_user i count file_pos s
        ≡ ok (take n (drop file_pos (content cs)), file_pos + n) s)
      × (n ≤ count)
      × (file_pos + n ≤ i.i_size)
      × (0 < count → 0 < n)
unfolding chunked_file_read found
chunked_file_read-content copy_to_user s i cs blocks count file_pos v file user inside =
    let (c, a, rest, run, st, positive, lo, hi, end, bytes) =
      find_chunk s file_pos 0 cs file.stored (omega arith) (omega (arith, file.sized)) in
    let n = min count (c.head.chunk_length - (file_pos - a)) in
    let enough : n ≤ length (drop (file_pos - a) c.payload) =
      omega (arith, length-drop (file_pos - a) c.payload, st.sized) in
    let listed : total (entries_of blocks) ≡ i.i_size =
      ap total file.entries ∙ total-map-entry s cs file.stored ∙ sym file.sized in
    let offset : (file_pos + 2 ^ 64 - a) % 2 ^ 64 ≡ file_pos - a = omega (arith, file.size_small) in
    let start : file_pos - 0 ≡ file_pos = omega arith in
    let same : take n (drop (file_pos - a) c.payload) ≡ take n (drop file_pos (content cs)) = sym (
      ap (λ k. take n (drop k (content cs))) (sym start)
      ∙ ap (take n) bytes
      ∙ take-append n (drop (file_pos - a) c.payload) rest enough) in
    let all : length (take n (drop file_pos (content cs))) ≡ n =
      ap length (sym same) ∙ length-take n (drop (file_pos - a) c.payload) ∙ omega arith in
    (
      n,
      rw (
        lt→leb i.i_size file_pos inside,
        file.marked,
        ll_search_left-find s v.device.bits_lo (suc file_pos) (get_list_head i) file_pos 0 blocks
            file.listed (omega arith) (omega (arith, file.size_small))
            (omega (arith, listed, file.size_small)) (omega arith),
        file.entries,
        run,
        offset,
        ==_ne c.place 0 (λ z. omega (arith, st.lo, hashtable_pos s v)),
        ==_ne c.head.chunk_length 0 (λ z. omega arith),
        chunk_copy_into_buffer-take copy_to_user s c count (file_pos - a) v st user,
        same,
        all,
      ),
      omega arith,
      omega (arith, file.sized),
      λ some_bytes. omega arith,
    )
