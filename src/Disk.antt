-- ===== src/Disk.antt =====
-- The device as the buffer cache shows it: a byte for each block number and offset in the block.
-- A buffer head is a block number, a pointer into its data a block number with an offset.
pub mod Flat
pub mod Words
use cominix_fs.Prelude.{
  ℕ, zero, suc, ◌+◌, ◌*◌, ◌/◌, ◌%◌, Bool, ◌&&◌, List, [], ◌∷◌, ◌==◌, if◌then◌else◌,
}

abbrev pub Disk : Type 0
Disk = ℕ → ℕ → ℕ

-- `data[o] = v` in the buffer of block `b`
unfoldable pub poke : Disk → ℕ → ℕ → ℕ → Disk
poke d b o v = λ b' o'. if b == b' && o == o' then v else d b' o'

-- `memcpy(data + o, xs, length xs)`
unfoldable pub put_bytes : Disk → ℕ → ℕ → List ℕ → Disk
put_bytes d b o [] = d
put_bytes d b o (x ∷ xs) = put_bytes (poke d b o x) b (o + 1) xs

-- the `n` bytes at `data + o`
unfoldable pub get_bytes : Disk → ℕ → ℕ → ℕ → List ℕ
get_bytes d b o zero = []
get_bytes d b o (suc n) = d b o ∷ get_bytes d b (o + 1) n

-- The whole device as one array of bytes: address `a` is offset `a % size` of block `a / size`.
unfoldable pub byte_at : ℕ → Disk → ℕ → ℕ
byte_at size d a = d (a / size) (a % size)

unfoldable pub flat_write : ℕ → Disk → ℕ → List ℕ → Disk
flat_write size d a [] = d
flat_write size d a (x ∷ xs) = flat_write size (poke d (a / size) (a % size) x) (a + 1) xs

unfoldable pub flat_read : ℕ → Disk → ℕ → ℕ → List ℕ
flat_read size d a zero = []
flat_read size d a (suc n) = byte_at size d a ∷ flat_read size d (a + 1) n

-- little-endian integers as their bytes
unfoldable pub to_le : ℕ → ℕ → List ℕ
to_le zero v = []
to_le (suc n) v = (v % 256) ∷ to_le n (v / 256)

unfoldable pub from_le : List ℕ → ℕ
from_le [] = 0
from_le (x ∷ xs) = x + 256 * from_le xs
