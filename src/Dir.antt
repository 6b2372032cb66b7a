-- ===== src/Dir.antt =====
-- src/dir.c: directories as pages of entries of `s_dirsize` bytes. An entry is an inode number and a
-- name, which a 0 byte ends where it is shorter than `s_namelen`.
pub mod Loop
pub mod Slots
pub mod Names
pub mod Find
pub mod Change
pub mod Unique
pub mod Number
pub mod Modify
pub mod Search
pub mod Filled
pub mod Insert
pub mod Empty
pub mod Dots
pub mod MakeEmpty
use cominix_fs.Prelude.{
  ℕ, zero, suc, ◌+◌, ◌-◌, ◌*◌, ◌/◌, ◌%◌, ◌^◌, Bool, true, false, not, ◌&&◌, ◌||◌, Option, none,
  some, List, [], ◌∷◌, ◌++◌, ltb, leb, ◌==◌, if◌then◌else◌, length, replicate,
}
use cominix_fs.Disk.{Disk, get_bytes, put_bytes, to_le, from_le}
use cominix_fs.Fs.{SbInfo}

-- A directory's inode and its pages in memory, by page number and offset. `page_ok` says of which
-- pages the kernel gives a folio.
pub record Dir : Type 0 where
  pub i_ino : ℕ
  pub i_size : ℕ
  pub page_shift : ℕ
  pub page_ok : ℕ → Bool
  pub mapping : Disk

abbrev pub page_size : Dir → ℕ
page_size d = 2 ^ d.page_shift

unfoldable pub dir_pages : Dir → ℕ
dir_pages d = (d.i_size + (page_size d - 1)) / page_size d

unfoldable pub cominix_last_byte : Dir → ℕ → ℕ
cominix_last_byte d page_nr =
    if page_nr == d.i_size / page_size d then d.i_size % page_size d else page_size d

-- A `for` loop over `rounds` indices from `i` on that ends early where its body gives a result.
unfoldable pub for_each {ℓ} : {R : Type ℓ} → ℕ → ℕ → (ℕ → Option R) → Option R
for_each zero i body = none
for_each (suc rounds) i body = elim (body i) [
  | some r ↦ some r
  | none ↦ for_each rounds (i + 1) body
]

-- The inode number stands first in an entry, in 4 bytes in a V3 directory and in 2 in the others.
unfoldable pub inode_bytes : SbInfo → ℕ
inode_bytes sbi = if sbi.s_version == 3 then 4 else 2

-- the number and the bytes of the name of the entry at offset `p` of page `n`
unfoldable pub inumber : SbInfo → Dir → ℕ → ℕ → ℕ
inumber sbi d n p = from_le (get_bytes d.mapping n p (inode_bytes sbi))

unfoldable pub namx : SbInfo → Dir → ℕ → ℕ → ℕ → ℕ
namx sbi d n p i = d.mapping n (p + inode_bytes sbi + i)

-- `memcmp(name, buffer, len) == 0`, from byte `i` of the buffer on
unfoldable pub same_bytes : List ℕ → (ℕ → ℕ) → ℕ → Bool
same_bytes [] buffer i = true
same_bytes (c ∷ name) buffer i = (c == buffer i) && same_bytes name buffer (i + 1)

-- `name` has `len` bytes.
unfoldable pub namecompare : ℕ → List ℕ → (ℕ → ℕ) → Bool
namecompare maxlen name buffer =
    if ltb (length name) maxlen && not (buffer (length name) == 0)
    then false
    else same_bytes name buffer 0

-- The loops over the entries before `limit`, page by page; pages that cannot be read are left out.
-- A page has `last_byte / s_dirsize` entries: `s_dirsize` is not 0, since `cominix_fill_super` sets it to 64.
unfoldable pub for_entries {ℓ} : {R : Type ℓ} → SbInfo → Dir → (ℕ → ℕ → Option R) → Option R
for_entries sbi d body = for_each (dir_pages d) 0 λ n.
    if d.page_ok n
    then for_each (cominix_last_byte d n / sbi.s_dirsize) 0 (λ k. body n (k * sbi.s_dirsize))
    else none

-- The page and the offset of the entry with the name.
unfoldable pub find_test : SbInfo → Dir → List ℕ → ℕ → ℕ → Option (ℕ × ℕ)
find_test sbi d name n p =
    if inumber sbi d n p == 0
    then none
    else if namecompare sbi.s_namelen name (namx sbi d n p)
    then some (n, p)
    else none

unfoldable pub cominix_find_entry : SbInfo → Dir → List ℕ → Option (ℕ × ℕ)
cominix_find_entry sbi d name = for_entries sbi d (find_test sbi d name)

unfoldable pub cominix_inode_by_name : SbInfo → Dir → List ℕ → ℕ
cominix_inode_by_name sbi d name = elim (cominix_find_entry sbi d name) [
  | none ↦ 0
  | some de ↦ inumber sbi d de.0 de.1
]

unfoldable pub cominix_dotdot : SbInfo → Dir → Option (ℕ × ℕ)
cominix_dotdot sbi d = if d.page_ok 0 then some (0, sbi.s_dirsize) else none

-- What keeps a directory from being empty: an entry in use other than `.`, which must have the
-- directory's own number, and `..`.
unfoldable pub not_empty_test : SbInfo → Dir → ℕ → ℕ → Option (Unit {0})
not_empty_test sbi d n p =
    let name = namx sbi d n p in
    let ino = inumber sbi d n p in
    if ino == 0
    then none
    else if not (name 0 == b'.')
    then some tt
    else if name 1 == 0
    then (if ino == d.i_ino then none else some tt)
    else if not (name 1 == b'.')
    then some tt
    else if name 2 == 0
    then none
    else some tt

unfoldable pub cominix_empty_dir : SbInfo → Dir → Bool
cominix_empty_dir sbi d = elim (for_entries sbi d (not_empty_test sbi d)) [
  | none ↦ true
  | some _ ↦ false
]

-- an entry that is handed out: the name and the number
pub record Entry : Type 0 where
  pub name : List ℕ
  pub ino : ℕ

-- the first `strnlen` bytes of a name of at most `rounds` bytes, from byte `i` on
unfoldable pub name_from : ℕ → (ℕ → ℕ) → ℕ → List ℕ
name_from zero name i = []
name_from (suc rounds) name i =
    let rest = name_from rounds name (i + 1) in if name i == 0 then [] else name i ∷ rest

-- `struct dir_context`: the position, the entries handed out, and whether one was refused
pub record Context : Type 0 where
  pub pos : ℕ
  pub taken : List Entry
  pub refused : Bool

-- `dir_emit` says whether the caller takes an entry after those that it has.
module _ (dir_emit : List Entry → Entry → Bool) where
  unfoldable pub emit_entry : SbInfo → Dir → ℕ → ℕ → Context → Context
  emit_entry sbi d n p c =
      let e : Entry = record {
        name = name_from sbi.s_namelen (namx sbi d n p) 0;
        ino = inumber sbi d n p;
      } in
      if inumber sbi d n p == 0
      then record c { pos = c.pos + sbi.s_dirsize }
      else if dir_emit c.taken e
      then record c { pos = c.pos + sbi.s_dirsize; taken = c.taken ++ (e ∷ []) }
      else record c { refused = true }

  unfoldable pub read_entries : ℕ → SbInfo → Dir → ℕ → ℕ → Context → Context
  read_entries zero sbi d n p c = c
  read_entries (suc rounds) sbi d n p c =
      let c' = emit_entry sbi d n p c in
      elim c'.refused [ true ↦ c' | false ↦ read_entries rounds sbi d n (p + sbi.s_dirsize) c' ]

  unfoldable pub read_pages : ℕ → SbInfo → Dir → ℕ → ℕ → Context → Context
  read_pages zero sbi d n offset c = c
  read_pages (suc rounds) sbi d n offset c =
      let c' =
        if d.page_ok n
        then read_entries ((cominix_last_byte d n - offset) / sbi.s_dirsize) sbi d n offset c
        else c in
      elim c'.refused [ true ↦ c' | false ↦ read_pages rounds sbi d (n + 1) 0 c' ]

  -- `ALIGN` for an entry size that is a power of two
  unfoldable pub cominix_readdir : SbInfo → Dir → Context → Context
  cominix_readdir sbi d ctx =
      let start = (ctx.pos + (sbi.s_dirsize - 1)) / sbi.s_dirsize * sbi.s_dirsize in
      let c = record ctx { pos = start } in
      if leb d.i_size start
      then c
      else read_pages (dir_pages d - start / page_size d) sbi d (start / page_size d)
          (start % page_size d) c

-- writes into a page
abbrev pub write_page : ℕ → ℕ → List ℕ → Dir → Dir
write_page n p xs d = record d { mapping = put_bytes d.mapping n p xs }

-- `dir_commit_chunk`: the size grows where the chunk ends behind it.
unfoldable pub dir_commit_chunk : ℕ → ℕ → Dir → Dir
dir_commit_chunk pos len d = if ltb d.i_size (pos + len) then record d { i_size = pos + len } else d

-- where the search for room for a new entry ends
pub data Room : Type 0 where
  got_it : ℕ → ℕ → Bool → Room
  exists : Room
  no_page : ℕ → Room

-- `got_it n p hit_end`: `hit_end` says that the entry stands at the directory's end.
unfoldable pub room_test : SbInfo → Dir → List ℕ → ℕ → ℕ → Option Room
room_test sbi d name n p =
    if p == cominix_last_byte d n
    then some (got_it n p true)
    else if inumber sbi d n p == 0
    then some (got_it n p false)
    else if namecompare sbi.s_namelen name (namx sbi d n p)
    then some exists
    else none

unfoldable pub find_room : SbInfo → Dir → List ℕ → Option Room
find_room sbi d name = for_each (dir_pages d + 1) 0 λ n.
    if d.page_ok n
    then for_each (page_size d / sbi.s_dirsize) 0 (λ k. room_test sbi d name n (k * sbi.s_dirsize))
    else some (no_page n)

-- the name, zeroes behind it, and the number
unfoldable pub fill_entry : SbInfo → ℕ → ℕ → List ℕ → ℕ → Dir → Dir
fill_entry sbi n p name ino d =
    let named = write_page n (p + inode_bytes sbi) name d in
    let padded =
      write_page n (p + inode_bytes sbi + length name)
        (replicate (sbi.s_dirsize - length name - inode_bytes sbi) 0) named in
    write_page n p (to_le (inode_bytes sbi) ino) padded

-- What the kernel gives, as error numbers, 0 for success: `cominix_prepare_chunk` (which only calls
-- `__block_write_begin`) for a position and a length, `cominix_handle_dirsync`, and the error of a
-- page that cannot be read. A result is the error number and the directory.
module _ (prepare : Dir → ℕ → ℕ → ℕ) (dirsync : Dir → ℕ) (page_error : ℕ → ℕ) where
  -- the number of an entry, written between `prepare` and the commit
  unfoldable pub put_inumber : SbInfo → ℕ → ℕ → ℕ → Dir → ℕ × Dir
  put_inumber sbi n p ino d =
      let pos = n * page_size d + p in
      let err = prepare d pos sbi.s_dirsize in
      if err == 0
      then (let d' =
            dir_commit_chunk pos sbi.s_dirsize (write_page n p (to_le (inode_bytes sbi) ino) d) in
          (dirsync d', d'))
      else (err, d)

  unfoldable pub cominix_delete_entry : SbInfo → ℕ × ℕ → Dir → ℕ × Dir
  unfolding put_inumber
  cominix_delete_entry sbi de d = put_inumber sbi de.0 de.1 0 d

  unfoldable pub cominix_set_link : SbInfo → ℕ × ℕ → ℕ → Dir → ℕ × Dir
  unfolding put_inumber
  cominix_set_link sbi de ino d = put_inumber sbi de.0 de.1 ino d

  -- `none` is `BUG()`; 17 is `EEXIST`.
  unfoldable pub cominix_add_link : SbInfo → List ℕ → ℕ → Dir → Option (ℕ × Dir)
  cominix_add_link sbi name ino d = elim (find_room sbi d name) [
    | none ↦ none
    | some room ↦ elim room [
      | exists ↦ some (17, d)
      | no_page n ↦ some (page_error n, d)
      | got_it n p hit_end ↦
          let d₁ = if hit_end then write_page n p (to_le (inode_bytes sbi) 0) d else d in
          let pos = n * page_size d + p in
          let err = prepare d₁ pos sbi.s_dirsize in
          if err == 0
          then (let d₂ = dir_commit_chunk pos sbi.s_dirsize (fill_entry sbi n p name ino d₁) in
              some (dirsync d₂, d₂))
          else some (err, d₁)
    ]
  ]

  -- The first page of a new directory with its entries `.` and `..`. `grab` is the error of the
  -- kernel where it gives no page.
  unfoldable pub cominix_make_empty : SbInfo → ℕ → ℕ → Dir → ℕ × Dir
  cominix_make_empty sbi grab parent d =
      let err = prepare d 0 (2 * sbi.s_dirsize) in
      if not (grab == 0)
      then (grab, d)
      else if err == 0
      then (let i = inode_bytes sbi in
          let z = write_page 0 0 (replicate (page_size d) 0) d in
          let a = write_page 0 0 (to_le i d.i_ino) z in
          let a' = write_page 0 i (b'.' ∷ 0 ∷ []) a in
          let b = write_page 0 sbi.s_dirsize (to_le i parent) a' in
          let b' = write_page 0 (sbi.s_dirsize + i) (b'.' ∷ b'.' ∷ 0 ∷ []) b in
          let d' = dir_commit_chunk 0 (2 * sbi.s_dirsize) b' in (dirsync d', d'))
      else (err, d)
