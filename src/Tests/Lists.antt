-- ===== src/Tests/Lists.antt =====
-- A list of two chunks in one block.
use cominix_fs.Prelude.{ℕ, ◌+◌, ◌^◌, ◌<◌, ◌≡◌, refl, List, [], ◌∷◌, ◌==◌, arith, if◌then◌else◌}
use cominix_fs.Chunk.{ChunkEntry}
use cominix_fs.Disk.{byte_at, flat_read, from_le}
use cominix_fs.Fs.{Fs, ok}
use cominix_fs.LinkedList.Search.{
  Blocks, Entries, entry_at, find_entry, found, entries_of, total, ll_search_left-find,
}
use cominix_fs.LinkedList.{entry_of, ll_search_left}
use cominix_fs.Tests.{small_fs}

-- In block 2: a chunk of 10 bytes at 2112, and one of 20 bytes at 2200.
abbrev list_byte : ℕ → ℕ
list_byte o =
    if o == 0
    then 0x40
    else (if o == 1
        then 8
        else (if o == 8
            then 10
            else (if o == 16 then 0x98 else (if o == 17 then 8 else (if o == 24 then 20 else 0)))))

abbrev list_fs : Fs
list_fs = record small_fs { disk = λ b o. if b == 2 then list_byte o else 0 }

abbrev entries : List ChunkEntry
entries = entry_of 2112 10 ∷ entry_of 2200 20 ∷ []

list_fs-Entries : Entries list_fs 2 0 entries
unfolding entry_at flat_read byte_at from_le
list_fs-Entries =
    (omega arith, refl, omega arith, (omega arith, refl, omega arith, (omega arith, λ h. refl)))

list_fs-Blocks : Blocks list_fs 2 (entries ∷ [])
unfolding flat_read byte_at from_le
list_fs-Blocks = (refl, list_fs-Entries, refl)

entries_small : 0 + total (entries_of (entries ∷ [])) < 2 ^ 63
unfolding entries_of total
entries_small = omega arith

-- position 12 is the third byte of the second chunk
ll_search_left-find_example :
    ll_search_left 13 2 12 0 list_fs
    ≡ ok (found (find_entry 12 0 (entries_of (entries ∷ [])))) list_fs
ll_search_left-find_example =
    ll_search_left-find list_fs (omega arith) 13 2 12 0 (entries ∷ []) list_fs-Blocks (omega arith)
      (omega arith) entries_small (omega arith)
