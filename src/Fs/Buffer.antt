-- ===== src/Fs/Buffer.antt =====
-- Accesses inside a block, seen on the device as one array of bytes.
use cominix_fs.Prelude.{ℕ, ◌+◌, ◌*◌, ◌≤◌, ◌≡◌, ap, List, le→leb, length, pow_pos}
use cominix_fs.Disk.{flat_read, flat_write, from_le, to_le}
use cominix_fs.Disk.Flat.{put_bytes-flat, get_bytes-flat}
use cominix_fs.Disk.Words.{length-to_le}
use cominix_fs.Fs.{Fs, s_blocksize, ok, at, with_disk, load_bytes, store_bytes, load_le, store_le}

module _ (s : Fs) (b o : ℕ) where
  pub load_bytes-flat :
      (n : ℕ)
      → o + n ≤ s_blocksize s
      → load_bytes (at b o) n s ≡ ok (flat_read (s_blocksize s) s.disk (b * s_blocksize s + o) n) s
  unfolding load_bytes
  load_bytes-flat n h = rw (le→leb _ _ h) (
      ap (λ xs. ok xs s)
        (get_bytes-flat (s_blocksize s) (pow_pos s.s_blocksize_bits) s.disk b o n h))

  pub store_bytes-flat :
      (xs : List ℕ)
      → o + length xs ≤ s_blocksize s
      → store_bytes (at b o) xs s
        ≡ ok tt (with_disk s (flat_write (s_blocksize s) s.disk (b * s_blocksize s + o) xs))
  unfolding store_bytes
  store_bytes-flat xs h = rw (le→leb _ _ h) (
      ap (λ d. ok tt (with_disk s d))
        (put_bytes-flat (s_blocksize s) (pow_pos s.s_blocksize_bits) s.disk b o xs h))

  pub load_le-flat :
      (n : ℕ)
      → o + n ≤ s_blocksize s
      → load_le n (at b o) s
        ≡ ok (from_le (flat_read (s_blocksize s) s.disk (b * s_blocksize s + o) n)) s
  unfolding load_le
  load_le-flat n h = rw (load_bytes-flat n h)

  pub store_le-flat :
      (n v : ℕ)
      → o + n ≤ s_blocksize s
      → store_le n (at b o) v s
        ≡ ok tt
            (with_disk s (flat_write (s_blocksize s) s.disk (b * s_blocksize s + o) (to_le n v)))
  unfolding store_le
  store_le-flat n v h = store_bytes-flat (to_le n v) (rw (length-to_le n v) h)
