-- ===== src/Chunk/Reset.antt =====
-- `chunk_reset_hashtable` of src/chunk_handler.c.
use native.Mathlib.Nat.{mod-eq_of_lt}
use cominix_fs.Prelude.{
  ℕ, zero, suc, ◌*◌, ◌^◌, ◌<◌, ◌≤◌, ◌≡◌, refl, sym, take, drop, ap, ◌∙◌, none, [], arith, pow_pos,
  replicate, length-replicate,
}
use cominix_fs.Disk.{flat_write, flat_read, from_le}
use cominix_fs.Disk.Flat.{flat_read-flat_write, flat_read_part}
use cominix_fs.Fs.{Fs, s_blocksize, ok, with_disk}
use cominix_fs.Fs.Device.{Readable}
use cominix_fs.Chunk.{set_heap_brk, chunk_reset_hashtable}
use cominix_fs.Chunk.Storage.{bytes_of, write_data_storage-flat}
use cominix_fs.Chunk.Table.{Holds, table_end}

-- any part of a run of zeroes reads as 0
zero_part : (j k n : ℕ) → from_le (take j (drop k (replicate {A = ℕ} n 0))) ≡ 0
unfolding from_le
zero_part zero k n = refl
zero_part (suc j) zero zero = refl
zero_part (suc j) zero (suc n) = omega (arith, zero_part j zero n)
zero_part (suc j) (suc k) zero = refl
zero_part (suc j) (suc k) (suc n) = zero_part (suc j) k n

-- the state after the reset
unfoldable pub cleared : Fs → Fs
cleared s =
    with_disk (set_heap_brk (table_end s) s)
      (flat_write (s_blocksize s) s.disk s.sb.hashtable (replicate s.sb.hashtable_size 0))

module _ (s : Fs) (limit : ℕ) (dev : Readable s limit) (pos : 0 < s.sb.hashtable)
    (some_slots : 0 < s.sb.hashtable_size) (fits : table_end s ≤ limit)
    (small : limit < 2 ^ 64) where
  pub chunk_reset_hashtable-ok : chunk_reset_hashtable s ≡ ok tt (cleared s)
  unfolding chunk_reset_hashtable cleared bytes_of
  chunk_reset_hashtable-ok = rw (mod-eq_of_lt {n = table_end s} {m = 2 ^ 64} (omega arith)) (
      write_data_storage-flat (set_heap_brk (table_end s) s) limit s.sb.hashtable none
        s.sb.hashtable_size dev pos (omega arith) fits tt)

  cleared_brk : (cleared s).sb.heap_brk ≡ table_end s
  unfolding cleared
  cleared_brk = refl

  pub cleared-Holds : Holds (cleared s) (λ _. [])
  unfolding cleared
  cleared-Holds i h =
      let size = s_blocksize s in
      let d = flat_write size s.disk s.sb.hashtable (replicate s.sb.hashtable_size 0) in
      let whole : flat_read size d s.sb.hashtable s.sb.hashtable_size
          ≡ replicate s.sb.hashtable_size 0 =
        ap (λ n. flat_read size d s.sb.hashtable n) (sym (length-replicate s.sb.hashtable_size 0))
        ∙ flat_read-flat_write size (pow_pos s.s_blocksize_bits) s.disk s.sb.hashtable
            (replicate s.sb.hashtable_size 0) in
      ap from_le (
        flat_read_part size d s.sb.hashtable s.sb.hashtable_size (i * 8) 8 (omega arith)
        ∙ ap (λ xs. take 8 (drop (i * 8) xs)) whole)
      ∙ zero_part 8 (i * 8) s.sb.hashtable_size

  -- On a device that can be read below a limit under 2 ^ 64, for a table of at least one byte that
  -- begins above 0 and ends not above the limit, the reset succeeds, puts the break behind the
  -- table, and leaves every bucket empty.
  pub chunk_reset_hashtable-Holds :
      (s' : Fs) × (chunk_reset_hashtable s ≡ ok tt s')
      × (s'.sb.heap_brk ≡ table_end s)
      × Holds s' (λ _. [])
  chunk_reset_hashtable-Holds = (cleared s, chunk_reset_hashtable-ok, cleared_brk, cleared-Holds)
