-- ===== src/Mount/ExtraSuper.antt =====
-- The extra super block of src/inode.c beside the mounted state.
use cominix_fs.Prelude.{
  ℕ, ◌+◌, ◌*◌, ◌<◌, ◌≤◌, ◌≡◌, ◌≢◌, sym, ap, ◌∙◌, arith, ==_ne, inl, true, List, pow_pos,
}
use cominix_fs.Chunk.Alloc.{HeapOk, next_brk, allocated, extra_below, block_large}
use cominix_fs.Chunk.{ChunkHead, chunk_fill_hashtable}
use cominix_fs.Chunk.Fill.{Fits, filled, filled-HeapOk, filled-below, chunk_fill_hashtable-ok}
use cominix_fs.Disk.{flat_read, from_le, to_le}
use cominix_fs.Disk.Flat.{flat_read-flat_write, flat_read-flat_write_apart}
use cominix_fs.Disk.Words.{length-to_le, from_le-to_le}
use cominix_fs.Fs.{Fs, s_blocksize, ok, b_data, ◌>>=◌}
use cominix_fs.Fs.Buffer.{load_le-flat}
use cominix_fs.Fs.Device.{load_block-ok}
use cominix_fs.Mount.{cminix_fill_extra_super}

-- the integer of `n` bytes at offset `o` of the extra super block
abbrev pub extra_field : Fs → ℕ → ℕ → ℕ
extra_field s o n =
    from_le (flat_read (s_blocksize s) s.disk (s.sb.extra_sb_location * s_blocksize s + o) n)

pub record OnDisk (s : Fs) : Type 0 where
  pub located : s.sb.extra_sb_location ≢ 0
  pub table : extra_field s 0 8 ≡ s.sb.hashtable
  pub size : extra_field s 8 4 ≡ s.sb.hashtable_size
  pub brk : extra_field s 16 8 ≡ s.sb.heap_brk

module _ (s : Fs) (v : HeapOk s) where
  readable_extra : s.readable s.sb.extra_sb_location ≡ true
  readable_extra =
      v.device.blocks s.sb.extra_sb_location
        (omega (arith, extra_below s v, block_large s v, v.above, v.below))

  -- Where the extra super block agrees with the mounted state, a mount finds that state.
  fill_extra-OnDisk : OnDisk s → cminix_fill_extra_super s ≡ ok 0 s
  unfolding cminix_fill_extra_super b_data
  fill_extra-OnDisk d = rw (
    ==_ne s.sb.extra_sb_location 0 d.located,
    load_block-ok s s.sb.extra_sb_location v.device.bits_lo readable_extra,
    load_le-flat s s.sb.extra_sb_location 0 8 (omega (arith, block_large s v)),
    load_le-flat s s.sb.extra_sb_location 8 4 (omega (arith, block_large s v)),
    load_le-flat s s.sb.extra_sb_location 16 8 (omega (arith, block_large s v)),
    d.table,
    d.size,
    d.brk,
  )

  -- the new break is written where the extra super block keeps it, and nowhere else
  allocated-OnDisk :
      (size : ℕ) → next_brk s size < s.sb.max_brk → OnDisk s → OnDisk (allocated s size)
  unfolding allocated
  allocated-OnDisk size room d =
      let esb = s.sb.extra_sb_location * s_blocksize s in
      let large = pow_pos s.s_blocksize_bits in
      record {
        located = d.located;
        table =
            ap from_le (
              flat_read-flat_write_apart (s_blocksize s) large s.disk (esb + 16)
                (to_le 8 (next_brk s size)) (esb + 0) 8 (inl (omega arith)))
            ∙ d.table;
        size =
            ap from_le (
              flat_read-flat_write_apart (s_blocksize s) large s.disk (esb + 16)
                (to_le 8 (next_brk s size)) (esb + 8) 4 (inl (omega arith)))
            ∙ d.size;
        brk =
            ap (λ n. from_le (flat_read (s_blocksize s) (allocated s size).disk (esb + 16) n))
              (sym (length-to_le 8 (next_brk s size)))
            ∙ ap from_le (
                flat_read-flat_write (s_blocksize s) large s.disk (esb + 16)
                  (to_le 8 (next_brk s size)))
            ∙ from_le-to_le 8 (next_brk s size) (omega (arith, v.addressable));
      }

module _ (s : Fs) (m : ChunkHead) (payload : List ℕ) (fits : Fits s m payload) where
  field_below :
      (o n : ℕ) → o + n ≤ 24 → s.sb.extra_sb_location * s_blocksize s + o + n ≤ s.sb.hashtable
  field_below o n h = omega (arith, extra_below s fits.heap, block_large s fits.heap)

  filled-OnDisk : OnDisk s → OnDisk (filled s m payload fits)
  unfolding filled from_le allocated
  filled-OnDisk d =
      let esb = s.sb.extra_sb_location * s_blocksize s in
      let a = allocated-OnDisk s fits.heap m.chunk_length fits.room d in
      record {
        located = a.located;
        table =
            ap from_le (filled-below s m payload fits (esb + 0) 8 (field_below 0 8 (omega arith)))
            ∙ a.table;
        size =
            ap from_le (filled-below s m payload fits (esb + 8) 4 (field_below 8 4 (omega arith)))
            ∙ a.size;
        brk =
            ap from_le (filled-below s m payload fits (esb + 16) 8 (field_below 16 8 (omega arith)))
            ∙ a.brk;
      }

  -- If a chunk fits and the extra super block agrees with the mounted state before it is filled in,
  -- then reading the extra super block afterwards, as a mount does, finds the hash table's place
  -- and size and the break as the fill left them.
  pub fill_extra-fill_hashtable :
      OnDisk s
      → (chunk_fill_hashtable m payload >>= λ _. cminix_fill_extra_super) s
        ≡ ok 0 (filled s m payload fits)
  fill_extra-fill_hashtable d = rw (chunk_fill_hashtable-ok s m payload fits) (
      fill_extra-OnDisk (filled s m payload fits) (filled-HeapOk s m payload fits)
        (filled-OnDisk d))
