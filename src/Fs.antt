-- ===== src/Fs.antt =====
-- The mounted file system: `struct cominix_sb_info` of src/cominix.h, the device below it, and the
-- runs of kernel code over both.
pub mod Buffer
pub mod Device
use cominix_fs.Prelude.{
  ℕ, zero, suc, ◌+◌, ◌*◌, ◌^◌, ◌≡◌, Bool, true, false, Option, none, some, List, [], ◌∷◌, ltb, leb,
  ◌==◌, if◌then◌else◌, length,
}
use cominix_fs.Disk.{Disk, get_bytes, put_bytes, from_le, to_le}

-- `struct cominix_sb_info`, less the buffers of the bitmaps and of the super block.
pub record SbInfo : Type 0 where
  pub s_ninodes : ℕ
  pub s_nzones : ℕ
  pub s_imap_blocks : ℕ
  pub s_zmap_blocks : ℕ
  pub s_firstdatazone : ℕ
  pub s_log_zone_size : ℕ
  pub s_dirsize : ℕ
  pub s_namelen : ℕ
  pub s_mount_state : ℕ
  pub s_version : ℕ
  pub extra_sb_location : ℕ
  pub hashtable : ℕ
  pub hashtable_size : ℕ
  pub heap_brk : ℕ
  pub max_brk : ℕ

-- The bits of one bitmap block, by their little-endian number.
abbrev pub Bits : Type 0
Bits = ℕ → Bool

-- `s_blocksize` is `2 ^ s_blocksize_bits`. `readable` says of which blocks `sb_bread` gives a buffer.
-- The bitmap blocks stay in memory from mount to unmount: `s_imap` and `s_zmap` are their contents.
pub record Fs : Type 0 where
  pub s_blocksize_bits : ℕ
  pub readable : ℕ → Bool
  pub sb : SbInfo
  pub disk : Disk
  pub s_imap : List Bits
  pub s_zmap : List Bits

abbrev pub s_blocksize : Fs → ℕ
s_blocksize s = 2 ^ s.s_blocksize_bits

-- A run ends with a value and a state, in `BUG()`, in an access that no buffer covers, or it goes
-- on past the fuel.
pub data Run (A : Type 0) : Type 0 where
  ok : A → Fs → Run A
  bug oops hang : Run A

abbrev pub M : Type 0 → Type 0
M A = Fs → Run A

abbrev pub pure : {A : Type 0} → A → M A
pure = ok

module _ {A B : Type 0} where
  abbrev pub and_then : Run A → (A → M B) → Run B
  and_then (ok a s) k = k a s
  and_then bug k = bug
  and_then oops k = oops
  and_then hang k = hang

  infixl 5 ◌>>=◌ ◌>>◌
  abbrev pub ◌>>=◌ : M A → (A → M B) → M B
  m >>= k = λ s. and_then (m s) k

  abbrev pub ◌>>◌ : M A → M B → M B
  m >> n = m >>= λ _. n

abbrev pub get : M Fs
get s = ok s s

abbrev pub modify : (Fs → Fs) → M (Unit {0})
modify f s = ok tt (f s)

-- `BUG_ON(b)`
abbrev pub bug_on : Bool → M (Unit {0})
bug_on true s = bug
bug_on false s = ok tt s

-- an access that is defined only if `b` holds
abbrev pub defined_if : Bool → M (Unit {0})
defined_if true s = ok tt s
defined_if false s = oops

-- a pointer into the data of a buffer
pub record Ptr : Type 0 where
  pub block : ℕ
  pub offset : ℕ

abbrev pub at : ℕ → ℕ → Ptr
at b o = record { block = b; offset = o }

abbrev pub shift : Ptr → ℕ → Ptr
shift p n = at p.block (p.offset + n)

abbrev pub with_disk : Fs → Disk → Fs
with_disk s d = record s { disk = d }

-- Accesses to the `n` bytes at a pointer, inside the buffer that it points into.
unfoldable pub load_bytes : Ptr → ℕ → M (List ℕ)
load_bytes p n s =
    if leb (p.offset + n) (s_blocksize s) then ok (get_bytes s.disk p.block p.offset n) s else oops

unfoldable pub store_bytes : Ptr → List ℕ → M (Unit {0})
store_bytes p xs s =
    if leb (p.offset + length xs) (s_blocksize s)
    then ok tt (with_disk s (put_bytes s.disk p.block p.offset xs))
    else oops

-- `*(uN *)p` and `*(uN *)p = v` for an integer of `n` bytes
unfoldable pub load_le : ℕ → Ptr → M ℕ
load_le n p = do xs ← load_bytes p n; pure (from_le xs)

unfoldable pub store_le : ℕ → Ptr → ℕ → M (Unit {0})
store_le n p v = store_bytes p (to_le n v)

-- The buffer of a block, if the device can be read there. A buffer head is the block's number.
unfoldable pub sb_bread : ℕ → M (Option ℕ)
sb_bread b s = ok (if s.readable b then some b else none) s

-- `bh->b_data`, which is an invalid access if `bh` is NULL
unfoldable pub b_data : Option ℕ → M Ptr
b_data none s = oops
b_data (some b) s = ok (at b 0) s

abbrev pub is_null : Option ℕ → Bool
is_null none = true
is_null (some b) = false

-- `load_block`
unfoldable pub load_block : ℕ → M (Option ℕ)
load_block block = do s ← get; bug_on (ltb s.s_blocksize_bits 9); sb_bread block
