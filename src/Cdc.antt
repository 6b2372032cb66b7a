-- ===== src/Cdc.antt =====
-- src/cdc.h: where the next chunk of a file ends, by a rolling hash of its bytes.
pub mod Gear
pub mod Bounds
pub mod Local
use Prim.Native.Nat.{bit_and}
use cominix_fs.Prelude.{
  ℕ, zero, suc, ◌+◌, ◌-◌, ◌*◌, ◌%◌, ◌^◌, Bool, true, false, Option, none, some, List, ltb, leb,
  ◌==◌, if◌then◌else◌, get_or,
}
use cominix_fs.Cdc.Gear.{gear_table}

-- `kernel_read(filp, &b, 1, &pos)`: the byte at a position, or nothing where none could be read.
abbrev pub ReadByte : Type 0
ReadByte = ℕ → Option ℕ

abbrev pub mask : ℕ
mask = 0x0003590703530000

abbrev pub min_size : ℕ
min_size = 2048

abbrev pub max_size : ℕ
max_size = 65536

abbrev pub normal_size : ℕ
normal_size = 8192

-- the variables that a round changes
pub record Scan : Type 0 where
  pub pos : ℕ
  pub fp : ℕ
  pub b : ℕ

-- A byte that could not be read leaves `b` and `pos` as they were.
unfoldable pub read_one : ReadByte → Scan → Scan
read_one kernel_read c = elim (kernel_read c.pos) [
  | none ↦ c
  | some x ↦ record c { pos = c.pos + 1; b = x }
]

unfoldable pub roll : ReadByte → Scan → Scan
roll kernel_read c =
    let d = read_one kernel_read c in
    record d { fp = (d.fp * 2 + get_or gear_table d.b 0) % 2 ^ 64 }

-- A loop ends in a `return i`, or falls through with its variables.
pub data Scanned : Type 0 where
  cut : ℕ → Scanned
  go_on : ℕ → Scan → Scanned

-- `for (; i < bound; i++)` with `rounds` rounds left
unfoldable pub scan : ReadByte → ℕ → ℕ → Scan → Scanned
scan kernel_read zero i c = go_on i c
scan kernel_read (suc rounds) i c =
    let next = roll kernel_read c in
    let rest = scan kernel_read rounds (i + 1) next in
    if bit_and next.fp mask == 0 then cut i else rest

-- what the function returns after the second loop
abbrev pub returned : Scanned → ℕ
returned (cut i) = i
returned (go_on i c) = i

-- the second loop, if the first fell through
unfoldable pub second : ReadByte → ℕ → Scanned → Scanned
second kernel_read n (cut i) = cut i
second kernel_read n (go_on i c) = scan kernel_read (n - i) i c

unfoldable pub cdc_get_chunk_size : ReadByte → ℕ → ℕ → ℕ
unfolding second
cdc_get_chunk_size kernel_read i_size pos =
    let n = (i_size + 2 ^ 64 - pos) % 2 ^ 64 in
    if leb n min_size
    then n
    else (let bound = (if leb max_size n then max_size else n) in
        let normal =
          (if leb max_size n
            then normal_size
            else (if leb n normal_size then n else normal_size)) in
        let start : Scan = record { pos = pos + min_size; fp = 0; b = 0 } in
        returned (second kernel_read bound (scan kernel_read (normal - min_size) min_size start)))
