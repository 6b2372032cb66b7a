-- ===== src/Chunk/Alloc.antt =====
-- `chunk_alloc`: the heap above the hash table, its invariant, and where the next chunk goes.
use native.Mathlib.Nat.{div-add-mod', mod-lt, mod-eq_of_lt, mul-le-mul_left}
use cominix_fs.Prelude.{
  ℕ, ◌+◌, ◌-◌, ◌*◌, ◌/◌, ◌%◌, ◌^◌, ◌<◌, ◌≤◌, ◌≢◌, ◌≡◌, ap, ◌∙◌, true, inl, inr, arith, ==_ne,
  le→leb, lt→leb, leb, ◌==◌, if◌then◌else◌, Bool-cases, pow_pos, mod_of, div_mono,
}
use cominix_fs.Disk.{flat_write, to_le}
use cominix_fs.Fs.{Fs, s_blocksize, ok, bug, with_disk}
use cominix_fs.Fs.Buffer.{store_le-flat}
use cominix_fs.Fs.Device.{Readable, block_fits, load_block-ok, size_split}
use cominix_fs.Chunk.{
  head_size, block_no, chunk_start, chunk_alloc, update_brk_on_disk, set_heap_brk,
}

-- The layout of a mounted device: zones, hash table, chunks, free space. `max_brk` is below 4 GB,
-- since `chunk_alloc` computes a block's start in 32 bits.
pub record HeapOk (s : Fs) : Type 0 where
  pub device : Readable s s.sb.max_brk
  pub extra : s.sb.extra_sb_location < s.sb.s_nzones
  pub zones : s.sb.s_nzones * s_blocksize s ≤ s.sb.hashtable
  pub aligned : s.sb.hashtable % 8 ≡ 0
  pub slots : 8 ≤ s.sb.hashtable_size
  pub above : s.sb.hashtable + s.sb.hashtable_size ≤ s.sb.heap_brk
  pub below : s.sb.heap_brk < s.sb.max_brk
  pub addressable : s.sb.max_brk + s_blocksize s < 2 ^ 32

-- A head of `head_size` bytes at `a` lies in one block.
abbrev pub InBlock : Fs → ℕ → Type 0
InBlock s a = a % s_blocksize s + head_size ≤ s_blocksize s

-- The first place from `brk` on where a head fits into one block of `size` bytes: `brk` itself, or
-- else the next block's start.
unfoldable pub fit_start : ℕ → ℕ → ℕ
fit_start size brk = if leb (brk % size + head_size) size then brk else (brk / size + 1) * size

module _ (s : Fs) where
  -- the break after a chunk of `size` bytes
  unfoldable pub next_brk : ℕ → ℕ
  next_brk size = chunk_start s s.sb.heap_brk + head_size + size

  unfoldable pub allocated : ℕ → Fs
  unfolding next_brk
  allocated size = with_disk (set_heap_brk (next_brk size) s) (
      flat_write (s_blocksize s) s.disk (s.sb.extra_sb_location * s_blocksize s + 16)
        (to_le 8 (next_brk size)))

module _ (s : Fs) (v : HeapOk s) where
  pub block_large : 512 ≤ s_blocksize s
  block_large = omega (arith, size_split v.device, pow_pos (s.s_blocksize_bits - 9))

  start_same : (brk : ℕ) → brk / s_blocksize s ≡ (brk + 23) / s_blocksize s → InBlock s brk
  start_same brk e = omega (
    arith,
    block_large,
    div-add-mod' brk (s_blocksize s),
    div-add-mod' (brk + 23) (s_blocksize s),
    mod-lt brk (pow_pos s.s_blocksize_bits),
    mod-lt (brk + 23) (pow_pos s.s_blocksize_bits),
    ap (λ n. n * s_blocksize s) e,
  )

  -- the 32-bit arithmetic of `chunk_alloc` finds this place
  chunk_start-fit_start :
      (brk : ℕ) → brk < s.sb.max_brk → chunk_start s brk ≡ fit_start (s_blocksize s) brk
  unfolding chunk_start fit_start
  chunk_start-fit_start brk h =
      let size = s_blocksize s in
      let pos : 0 < size = pow_pos s.s_blocksize_bits in
      let q = brk / size in
      let r = (brk + 23) / size in
      let q_def = div-add-mod' brk size in
      let r_def = div-add-mod' (brk + 23) size in
      let z : (brk + 24 - 1) % 2 ^ 64 ≡ brk + 23 = omega (arith, v.addressable) in
      let q_fits : q < 2 ^ 32 = block_fits v.device brk h in
      let r_fits : r < 2 ^ 32 = omega (arith, v.addressable, block_large) in
      rw (z, mod-eq_of_lt q_fits, mod-eq_of_lt r_fits)
        (elim (Bool-cases (q == r)) [
          | inl e ↦
              let same : q ≡ r = ground arith in
              rw (e, le→leb (brk % size + 24) size (start_same brk same))
          | inr e ↦
              let apart : q ≢ r = ground arith in
              let later : (q + 1) * size ≤ r * size = omega (
                arith,
                mul-le-mul_left {m = q + 1} {n = r} size
                    (omega (arith, div_mono size pos brk (brk + 23) (omega arith))),
              ) in
              let fits : (q + 1) * size < 2 ^ 32 = omega (arith, v.addressable) in
              let straddles : size < brk % size + 24 = omega (arith, mod-lt (brk + 23) pos) in
              rw (e, mod-eq_of_lt fits, lt→leb (brk % size + 24) size straddles)
        ])

  -- In a valid heap layout, and for a break below the maximum, the next chunk starts at the break
  -- or less than 24 bytes above it, and its head does not straddle a block boundary.
  pub chunk_start_lem :
      (brk : ℕ)
      → brk < s.sb.max_brk
      → (brk ≤ chunk_start s brk)
        × (chunk_start s brk < brk + head_size)
        × InBlock s (chunk_start s brk)
  unfolding fit_start
  chunk_start_lem brk h =
      let size = s_blocksize s in
      let pos : 0 < size = pow_pos s.s_blocksize_bits in
      let q = brk / size in
      let whole = div-add-mod' brk size in
      rw (chunk_start-fit_start brk h) (elim (Bool-cases (leb (brk % size + 24) size)) [
        | inl e ↦ rw e (omega arith, omega arith, ground arith)
        | inr e ↦
            let straddles : size < brk % size + 24 = ground arith in
            let zero_offset : (q + 1) * size % size ≡ 0 =
              let n : (q + 1) * size ≡ (q + 1) * size + 0 = omega arith in
              rw n (mod_of size pos (q + 1) 0 pos) in
            rw e (
              omega (arith, mod-lt brk pos),
              omega (arith, mod-lt brk pos),
              rw zero_offset (omega (arith, block_large)),
            )
      ])

  -- The slot of the on-disk break lies below the hash table.
  pub extra_below : (s.sb.extra_sb_location + 1) * s_blocksize s ≤ s.sb.hashtable
  extra_below = omega (
    arith,
    v.zones,
    mul-le-mul_left {m = s.sb.extra_sb_location + 1} {n = s.sb.s_nzones} (s_blocksize s)
        (omega (arith, v.extra)),
  )

  pub hashtable_pos : 0 < s.sb.hashtable
  hashtable_pos = omega (arith, extra_below, block_large)

  pub zones_below : s.sb.s_nzones * s_blocksize s < s.sb.heap_brk
  zones_below = omega (arith, v.zones, v.above, v.slots)

  extra_readable : s.readable s.sb.extra_sb_location ≡ true
  extra_readable =
      v.device.blocks s.sb.extra_sb_location (omega (arith, extra_below, v.above, v.below))

  pub chunk_alloc-ok :
      (size : ℕ)
      → 0 < size
      → next_brk s size < s.sb.max_brk
      → chunk_alloc size s ≡ ok (chunk_start s s.sb.heap_brk) (allocated s size)
  unfolding chunk_alloc update_brk_on_disk next_brk allocated
  chunk_alloc-ok size some room =
      let start = chunk_start_lem s.sb.heap_brk v.below in
      let zones_small : s.sb.s_nzones * s_blocksize s % 2 ^ 64 ≡ s.sb.s_nzones * s_blocksize s =
        omega (arith, zones_below, v.below, v.addressable) in
      let brk_small : next_brk s size % 2 ^ 64 ≡ next_brk s size = omega (arith, v.addressable) in
      rw (
        ==_ne size 0 (λ e. omega arith),
        zones_small,
        lt→leb _ _ zones_below,
        brk_small,
        lt→leb _ _ room,
        load_block-ok (set_heap_brk (next_brk s size) s) _ v.device.bits_lo extra_readable,
        store_le-flat (set_heap_brk (next_brk s size) s) s.sb.extra_sb_location 16 8
            (next_brk s size) (omega (arith, block_large)),
      )

  -- In a valid heap layout, a request of a positive size gets the first place from the break on
  -- where a head fits into one block: the break itself if 24 bytes are left in its block, and the
  -- start of the next block otherwise. The condition is that the chunk with its head ends below the
  -- maximum. The break moves behind the chunk, in memory and in the extra super block, and nothing
  -- else changes.
  pub chunk_alloc-fit_start :
      (size : ℕ)
      → 0 < size
      → fit_start (s_blocksize s) s.sb.heap_brk + head_size + size < s.sb.max_brk
      → let start = fit_start (s_blocksize s) s.sb.heap_brk in
        let brk = start + head_size + size in
        chunk_alloc size s
        ≡ ok start (
            with_disk (set_heap_brk brk s) (
              flat_write
                (s_blocksize s)
                s.disk
                (s.sb.extra_sb_location * s_blocksize s + 16)
                (to_le 8 brk)))
  unfolding next_brk allocated
  chunk_alloc-fit_start size some room =
      let start = chunk_start-fit_start s.sb.heap_brk v.below in
      let fits : next_brk s size < s.sb.max_brk = omega (arith, start) in
      chunk_alloc-ok size some fits
      ∙ ap
          (λ a. ok a (
            with_disk (set_heap_brk (a + head_size + size) s) (
              flat_write (s_blocksize s) s.disk (s.sb.extra_sb_location * s_blocksize s + 16)
                (to_le 8 (a + head_size + size)))))
          start

  -- In a valid heap layout, a request after which the break would not be below the maximum, and
  -- would still be below 2 ^ 64, stops the kernel.
  pub chunk_alloc-bug :
      (size : ℕ)
      → s.sb.max_brk ≤ next_brk s size
      → next_brk s size < 2 ^ 64
      → chunk_alloc size s ≡ bug
  unfolding chunk_alloc next_brk
  chunk_alloc-bug size full small = elim (Bool-cases (size == 0)) [
    | inl e ↦ rw e
    | inr e ↦
        let zones_small : s.sb.s_nzones * s_blocksize s % 2 ^ 64 ≡ s.sb.s_nzones * s_blocksize s =
          omega (arith, zones_below, v.below, v.addressable) in
        rw (e, zones_small, lt→leb _ _ zones_below, mod-eq_of_lt small, le→leb _ _ full)
  ]

  pub HeapOk-allocated : (size : ℕ) → next_brk s size < s.sb.max_brk → HeapOk (allocated s size)
  unfolding allocated next_brk
  HeapOk-allocated size room = record {
    device = v.device;
    extra = v.extra;
    zones = v.zones;
    aligned = v.aligned;
    slots = v.slots;
    above = omega (arith, v.above, chunk_start_lem s.sb.heap_brk v.below);
    below = room;
    addressable = v.addressable;
  }

-- From 4 GB on, a head that would straddle a block boundary is put below the break.
pub chunk_start-wraps :
    (s : Fs) (brk : ℕ)
    → 2 ^ 32 ≤ brk
    → block_no s brk ≢ block_no s ((brk + head_size - 1) % 2 ^ 64)
    → chunk_start s brk < brk
unfolding chunk_start
chunk_start-wraps s brk high straddles =
    rw (==_ne (block_no s brk) (block_no s ((brk + head_size - 1) % 2 ^ 64)) straddles)
      (omega arith)
