-- ===== src/LinkedList/Extend.antt =====
-- `ll_append` of src/linked_list.h where the last block is full: the list gets a new one.
use native.Mathlib.Nat.{mul-le-mul_left}
use mathlib.Core.Bool.{false≢true}
use cominix_fs.Prelude.{
  ℕ, ◌+◌, ◌-◌, ◌*◌, ◌^◌, ◌%◌, ◌<◌, ◌≤◌, ◌≢◌, ◌≡◌, sym, subst, ◌∙◌, true, false, List, [], ◌∷◌, ◌++◌,
  arith, length, inr, ◌==◌, ==_ne, mod_of,
}
use cominix_fs.BitOps.{BitOps}
use cominix_fs.Bitmap.Alloc.{busy}
use cominix_fs.Chunk.{ChunkEntry}
use cominix_fs.Chunk.Alloc.{HeapOk}
use cominix_fs.Disk.{Disk, to_le}
use cominix_fs.Disk.Words.{length-to_le}
use cominix_fs.Fs.{Bits, Fs, s_blocksize, ok, at, with_disk, store_le, b_data}
use cominix_fs.Fs.Buffer.{store_le-flat}
use cominix_fs.Fs.Device.{load_block-ok, block-lt}
use cominix_fs.LinkedList.{entries_per_block, ll_append, ptr_next}
use cominix_fs.LinkedList.Frame.{Keeps, block_size, SameBlock, Seg-step, Entries-same, link_same}
use cominix_fs.LinkedList.Fresh.{
  zoned, zone_bit, Fresh, zeroed, with_link, zeroed-Last, zeroed-SameBlock, store_zeroes, link_new,
  link-SameBlock, Entries-link,
}
use cominix_fs.LinkedList.Search.{entry_at, link_at}
use cominix_fs.LinkedList.Segment.{moved, Owned, Seg, Last-Entries, owned-readable}
use cominix_fs.LinkedList.Write.{
  length-entry_bytes, entry_bytes, IsEntry, with_entry, put_entry-ok, entry-SameBlock, Last-put,
}
use cominix_fs.LinkedList.Append.{
  SameHeap, Growing, entry_count, Guarded, write-SameHeap, Fresh-Owned, zeroed-SameHeap,
}

module _ (ops : BitOps) (s : Fs) (v : HeapOk s) (head end : ℕ) (full : List (List ChunkEntry))
    (last : List ChunkEntry) (list : Growing s head end full last) (e : ChunkEntry)
    (small : IsEntry e) where
  lo : 9 ≤ s.s_blocksize_bits
  lo = v.device.bits_lo

  abbrev epb : ℕ
  epb = entries_per_block s

  abbrev n : ℕ
  n = entry_count s full last

  per_block : 0 < epb
  per_block = omega (arith, block_size s lo)

  readable_end : s.readable end ≡ true
  readable_end = owned-readable s end v list.end_block.owned.1

  module _ (guarded : Guarded s) (all : length last ≡ epb) (r : ℕ) (m : List Bits)
      (new : Fresh ops s r m) where
    -- the states after the allocation, the link, the zeroes and the entry
    abbrev s₁ : Fs
    s₁ = with_disk (zoned s m) (with_link (zoned s m) end r)

    abbrev s₂ : Fs
    s₂ = with_disk s₁ (zeroed s₁ r)

    abbrev pub linked_disk : Disk
    linked_disk = with_entry s₂ r 0 e

    mod_zero : n % epb ≡ 0
    mod_zero =
        let split : n ≡ (length full + 1) * epb + 0 = omega arith in
        rw split (mod_of epb per_block (length full + 1) 0 per_block)

    some_entries : (n == 0) ≡ false
    some_entries = ==_ne n 0 (λ z. omega (arith, per_block))

    store_link : store_le 4 (ptr_next s (at end 0)) r (zoned s m) ≡ ok tt s₁
    unfolding ptr_next
    store_link =
        let z : 0 + (s_blocksize s - 4) ≡ s_blocksize s - 4 = omega arith in
        rw z
          (store_le-flat (zoned s m) end (s_blocksize s - 4) 4 r (omega (arith, block_size s lo)))

    pub ll_append-fresh :
        ll_append ops end n e s ≡ ok (r, n + 1) (moved s s.sb.heap_brk linked_disk m)
    unfolding ll_append b_data
    ll_append-fresh = rw (
      load_block-ok s end lo readable_end,
      mod_zero,
      some_entries,
      new.run,
      store_link,
      load_block-ok s₁ r lo (owned-readable s r v new.free.1),
      store_zeroes s₁ lo r,
      put_entry-ok s₂ lo r 0 e per_block n,
    )

    abbrev s₃ : Fs
    s₃ = moved s s.sb.heap_brk linked_disk m

    not_fresh : (c : ℕ) → Owned s c → c ≢ r
    not_fresh c owned z =
        false≢true (sym new.free.2 ∙ subst (λ b. busy s (zone_bit s b) ≡ true) z owned.2)

    Owned-kept : (c : ℕ) → Owned s c → Owned s₃ c
    Owned-kept c (lower, upper, taken, other) =
        (lower, upper, new.keeps (zone_bit s c) taken, other)

    -- the blocks but the old and the new end keep their bytes
    behind_link : (c : ℕ) → c ≢ r → SameBlock s₁ linked_disk c
    behind_link c ne o h =
        entry-SameBlock s₂ lo r 0 e per_block c ne o h ∙ zeroed-SameBlock s₁ lo r c ne o h

    linked_same : (c : ℕ) → c ≢ end → c ≢ r → SameBlock s linked_disk c
    linked_same c ne ne' o h = behind_link c ne' o h ∙ link-SameBlock (zoned s m) lo end r c ne o h

    r_small : r < 256 ^ 4
    r_small = omega (
      arith,
      block-lt v.device r (
          omega (
            arith,
            v.zones,
            v.above,
            v.below,
            block_size s lo,
            mul-le-mul_left {m = r + 1} {n = s.sb.s_nzones} (s_blocksize s)
                (omega (arith, new.free.1)),
          )),
    )

    Owned-fresh : Owned s₃ r
    Owned-fresh = Fresh-Owned ops s r m guarded new

    fresh_pos : r ≢ 0
    fresh_pos z = omega (arith, new.free.0, new.valid.first_pos)

    -- the old end, now full, with its link to the new one
    old_end : Seg s₃ end (last ∷ []) r
    unfolding entry_at
    old_end =
        let owned = list.end_block.owned in
        let ne = not_fresh end owned in
        let link : link_at s₃ end ≡ r =
          link_same s₁ lo s.sb.heap_brk linked_disk m end (behind_link end ne)
          ∙ link_new (zoned s m) lo end r r_small in
        (
          Owned-kept end owned,
          ne,
          Entries-same s₁ lo s.sb.heap_brk linked_disk m end 0 last (behind_link end ne)
              (Entries-link (zoned s m) lo end r 0 last (Last-Entries s end last list.end_block)),
          all,
          λ z. fresh_pos (sym link ∙ z),
          link,
        )

    pub fresh-Growing : Growing s₃ head r (full ++ (last ∷ [])) (e ∷ [])
    fresh-Growing = record {
      seg =
          Seg-step s lo s.sb.heap_brk linked_disk m end r (last ∷ [])
            (λ c owned ne.
              (linked_same c ne (not_fresh c owned), Owned-kept c owned, not_fresh c owned))
            old_end head full list.seg;
      end_block = Last-put s₂ r [] e lo per_block small (zeroed-Last s₁ lo r Owned-fresh);
      begun = inr (omega arith);
    }

    pub fresh-Keeps : Keeps s end s.sb.heap_brk linked_disk m r
    fresh-Keeps c owned ne =
        let ne' = not_fresh c owned in (linked_same c ne ne', Owned-kept c owned, ne')

    pub fresh-SameHeap : SameHeap s linked_disk
    fresh-SameHeap a above =
        let size = s_blocksize s in
        write-SameHeap s s₂.disk r (16 * 0) (entry_bytes e) a new.free.1
          (omega (arith, block_size s lo, length-entry_bytes e)) above
        ∙ zeroed-SameHeap s₁ r new.free.1 a above
        ∙ write-SameHeap s s.disk end (size - 4) (to_le 4 r) a list.end_block.owned.1
            (omega (arith, length-to_le 4 r, block_size s lo)) above
