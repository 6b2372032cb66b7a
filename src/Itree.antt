-- ===== src/Itree.antt =====
-- src/itree_v2.c and the size of a file in src/itree_common.c: the way from a block of a file
-- through its block pointers, seven direct ones and one each of one, two and three levels.
pub mod Path
pub mod Common
pub mod Lookup
pub mod Truncate
pub mod FreeData
pub mod Direct
pub mod Attr
use cominix_fs.Prelude.{
  ℕ, zero, suc, ◌+◌, ◌-◌, ◌*◌, ◌/◌, ◌%◌, ◌^◌, List, [], ◌∷◌, ltb, leb, if◌then◌else◌,
}

-- a `long`: `negsuc n` is -1 - n
pub data ℤ : Type 0 where
  pos negsuc : ℕ → ℤ

-- The pointers in a block, which has 4 bytes at least: `1 << (s_blocksize_bits - 2)`, an `int`.
abbrev pub indircount : ℕ → ℕ
indircount s_blocksize_bits = 2 ^ (s_blocksize_bits - 2) % 2 ^ 32

-- The offsets that `block_to_path` stores, as `int`s; their number is what it returns. The numbers
-- of 32 bits stand for the `int`s as long as they are below 2 ^ 31.
unfoldable pub block_to_path : ℕ → ℕ → ℤ → List ℕ
block_to_path bits maxbytes (negsuc n) = []
block_to_path bits maxbytes (pos block) =
    if leb maxbytes (block * 2 ^ bits % 2 ^ 64)
    then []
    else (let n = indircount bits in
        let single = block - 7 in
        let square = n * n % 2 ^ 32 in
        let double = single - n in
        let triple = double - square in
        if ltb block 7
        then block ∷ []
        else if ltb single n
        then 7 ∷ single % 2 ^ 32 ∷ []
        else if ltb double square
        then 8 ∷ (double / n) % 2 ^ 32 ∷ double % n % 2 ^ 32 ∷ []
        else 9 ∷ (triple / n) / n % 2 ^ 32 ∷ (triple / n) % n % 2 ^ 32 ∷ triple % n % 2 ^ 32 ∷ [])

-- The rounds of the loop of `nblocks`: `rounds` is `i - 1`, `per_block` the pointers in a block.
unfoldable pub count_levels : ℕ → ℕ → ℕ → ℕ → ℕ → ℕ
count_levels zero per_block direct blocks res = res
count_levels (suc rounds) per_block direct blocks res =
    let above = (blocks - direct + (per_block - 1)) / per_block in
    let rest = count_levels rounds per_block 1 above (res + above) in
    if ltb direct blocks then rest else res

-- The blocks that a file of `size` bytes takes, those of pointers included. For block sizes from
-- 1024 on and sizes that a file can have nothing overflows.
unfoldable pub nblocks : ℕ → ℕ → ℕ
nblocks s_blocksize_bits size =
    let blocks = (size + 2 ^ s_blocksize_bits - 1) / 2 ^ s_blocksize_bits in
    count_levels 3 (2 ^ s_blocksize_bits / 4) 7 blocks blocks
