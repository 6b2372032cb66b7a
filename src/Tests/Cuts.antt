-- ===== src/Tests/Cuts.antt =====
-- Chunk sizes of a file of zeroes.
use cominix_fs.Prelude.{◌<◌, ◌≤◌, ◌≡◌, refl, ◌⊎◌, some, arith}
use cominix_fs.Cdc.Bounds.{cdc_get_chunk_size_bounds}
use cominix_fs.Cdc.Local.{cdc_get_chunk_size_congr}
use cominix_fs.Cdc.{ReadByte, min_size, max_size, cdc_get_chunk_size}

abbrev zeroes : ReadByte
zeroes = λ pos. some 0

cdc_get_chunk_size_bounds_example :
    (0 < cdc_get_chunk_size zeroes 5000 100)
    × (cdc_get_chunk_size zeroes 5000 100 ≤ 4900)
    × (cdc_get_chunk_size zeroes 5000 100 ≤ max_size)
    × ((min_size ≤ cdc_get_chunk_size zeroes 5000 100)
        ⊎ (cdc_get_chunk_size zeroes 5000 100 ≡ 4900))
cdc_get_chunk_size_bounds_example =
    cdc_get_chunk_size_bounds zeroes 5000 100 (omega arith) (omega arith)

cdc_get_chunk_size_congr_example :
    cdc_get_chunk_size zeroes 90000 10 ≡ cdc_get_chunk_size zeroes 80000 200
cdc_get_chunk_size_congr_example =
    cdc_get_chunk_size_congr zeroes zeroes 90000 80000 10 200 (omega arith) (omega arith)
      (omega arith) (omega arith) refl (λ k h. refl)
