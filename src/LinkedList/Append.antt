-- ===== src/LinkedList/Append.antt =====
-- `ll_append` of src/linked_list.h: the list grows by one entry, in its last block or in a new one.
use native.Mathlib.Nat.{mul-le-mul_left}
use mathlib.Core.Bool.{false≢true}
use cominix_fs.Prelude.{
  ℕ, ◌+◌, ◌*◌, ◌%◌, ◌<◌, ◌≤◌, ◌≢◌, ◌≡◌, sym, ap, subst, ◌∙◌, true, List, [], ◌∷◌, ◌++◌, arith,
  length, length-append, inl, inr, ◌⊎◌, ◌==◌, ==_self, pow_pos, mod_of, replicate, length-replicate,
  Bool-cases,
}
use cominix_fs.BitOps.{BitOps}
use cominix_fs.Bitmap.Alloc.{busy}
use cominix_fs.Chunk.{ChunkEntry}
use cominix_fs.Chunk.Alloc.{HeapOk}
use cominix_fs.Disk.{Disk, flat_write, byte_at}
use cominix_fs.Disk.Flat.{byte_at-flat_write_apart}
use cominix_fs.Fs.{Bits, Fs, s_blocksize, ok, with_disk}
use cominix_fs.Fs.Device.{load_block-ok}
use cominix_fs.LinkedList.{entries_per_block, ll_append}
use cominix_fs.LinkedList.Frame.{block_size, SameBlock, Seg-same}
use cominix_fs.LinkedList.Fresh.{zoned, zone_bit, Fresh, zeroed}
use cominix_fs.LinkedList.Search.{entry_in_block}
use cominix_fs.LinkedList.Segment.{Owned, Seg, Last, owned-readable}
use cominix_fs.LinkedList.Write.{
  length-entry_bytes, entry_bytes, IsEntry, with_entry, put_entry-ok, entry-SameBlock, Last-put,
}

-- Above the zones the device has the same bytes.
abbrev pub SameHeap : Fs → Disk → Type 0
SameHeap s d =
    (a : ℕ)
    → s.sb.s_nzones * s_blocksize s ≤ a
    → byte_at (s_blocksize s) d a ≡ byte_at (s_blocksize s) s.disk a

-- The list from `head` to `end`: full blocks, and the entries `last` in the last.
pub record Growing (s : Fs) (head end : ℕ) (full : List (List ChunkEntry)) (last : List ChunkEntry)
    : Type 0 where
  pub seg : Seg s head full end
  pub end_block : Last s end last
  pub begun : (length full ≡ 0) ⊎ (0 < length last)

-- the number of entries
abbrev pub entry_count : Fs → List (List ChunkEntry) → List ChunkEntry → ℕ
entry_count s full last = length full * entries_per_block s + length last

-- The zone of the extra super block is in use.
abbrev pub Guarded : Fs → Type 0
Guarded s = busy s (zone_bit s s.sb.extra_sb_location) ≡ true

-- a write inside a block of the zones
pub write-SameHeap :
    (s : Fs) (d : Disk) (b k : ℕ) (xs : List ℕ) (a : ℕ)
    → b < s.sb.s_nzones
    → k + length xs ≤ s_blocksize s
    → s.sb.s_nzones * s_blocksize s ≤ a
    → byte_at (s_blocksize s) (flat_write (s_blocksize s) d (b * s_blocksize s + k) xs) a
      ≡ byte_at (s_blocksize s) d a
write-SameHeap s d b k xs a lt fits above =
    byte_at-flat_write_apart (s_blocksize s) (pow_pos s.s_blocksize_bits) d (b * s_blocksize s + k)
      xs a
      (inr (
        omega
          (arith, mul-le-mul_left {m = b + 1} {n = s.sb.s_nzones} (s_blocksize s) (omega arith))))

-- a new zone is owned, since it is not the extra super block's
pub Fresh-Owned :
    (ops : BitOps) (s : Fs) (r : ℕ) (m : List Bits)
    → Guarded s
    → Fresh ops s r m
    → Owned (zoned s m) r
Fresh-Owned ops s r m guarded new = (
  new.free.0,
  new.free.1,
  rw (new.bits (zone_bit s r), ==_self (zone_bit s r)),
  λ z. false≢true (sym new.free.2 ∙ subst (λ b. busy s (zone_bit s b) ≡ true) (sym z) guarded),
)

-- a zone in use is not the new one
pub Owned-apart :
    (ops : BitOps) (s : Fs) (r : ℕ) (m : List Bits) → Fresh ops s r m → (c : ℕ) → Owned s c → c ≢ r
Owned-apart ops s r m new c owned z =
    false≢true (sym new.free.2 ∙ subst (λ b. busy s (zone_bit s b) ≡ true) z owned.2)

pub zeroed-SameHeap : (s : Fs) (b : ℕ) → b < s.sb.s_nzones → SameHeap s (zeroed s b)
zeroed-SameHeap s b lt a above =
    let size = s_blocksize s in
    let z : b * size ≡ b * size + 0 = omega arith in
    ap (λ k. byte_at size (flat_write size s.disk k (replicate size 0)) a) z
    ∙ write-SameHeap s s.disk b 0 (replicate size 0) a lt
        (omega (arith, length-replicate {A = ℕ} size 0)) above

module _ (ops : BitOps) (s : Fs) (v : HeapOk s) (head end : ℕ) (full : List (List ChunkEntry))
    (last : List ChunkEntry) (list : Growing s head end full last) (e : ChunkEntry)
    (small : IsEntry e) where
  lo : 9 ≤ s.s_blocksize_bits
  lo = v.device.bits_lo

  abbrev epb : ℕ
  epb = entries_per_block s

  abbrev n : ℕ
  n = entry_count s full last

  per_block : 0 < epb
  per_block = omega (arith, block_size s lo)

  readable_end : s.readable end ≡ true
  readable_end = owned-readable s end v list.end_block.owned.1

  -- the place in the last block
  place : length last < epb → n % epb ≡ length last
  place h = mod_of epb per_block (length full) (length last) h

  not_new : length last < epb → ((length last == 0) ≡ true) → n ≡ 0
  not_new h z =
      let none : length last ≡ 0 = ground arith in
      elim list.begun [
        | inl first ↦ rw (first, none) (omega arith)
        | inr some_entry ↦ absurd (omega arith)
      ]

  module _ (room : length last < epb) where
    abbrev pub put : Disk
    put = with_entry s end (length last) e

    pub ll_append-room : ll_append ops end n e s ≡ ok (end, n + 1) (with_disk s put)
    unfolding ll_append
    ll_append-room =
        rw (load_block-ok s end lo readable_end, place room)
          (elim (Bool-cases (length last == 0)) [
            | inl z ↦ rw (z, not_new room z) (put_entry-ok s lo end (length last) e room 0)
            | inr some_entry ↦ rw some_entry (put_entry-ok s lo end (length last) e room n)
          ])

    pub put_same : (c : ℕ) → c ≢ end → SameBlock s put c
    put_same = entry-SameBlock s lo end (length last) e room

    pub room-Growing : Growing (with_disk s put) head end full (last ++ (e ∷ []))
    room-Growing = record {
      seg =
          Seg-same s lo s.sb.heap_brk put s.s_zmap end (λ c owned ne. (put_same c ne, owned)) head
            full list.seg;
      end_block = Last-put s end last e lo room small list.end_block;
      begun = inr (omega (arith, length-append last (e ∷ [])));
    }

    pub room-SameHeap : SameHeap s put
    room-SameHeap a above =
        write-SameHeap s s.disk end (16 * length last) (entry_bytes e) a list.end_block.owned.1
          (omega (arith, entry_in_block s lo (length last) room, length-entry_bytes e)) above
