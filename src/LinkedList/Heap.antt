-- ===== src/LinkedList/Heap.antt =====
-- The lists and the heap of chunks do not disturb each other.
use cominix_fs.Prelude.{
  ℕ, ◌+◌, ◌*◌, ◌<◌, ◌≤◌, ◌≢◌, ◌≡◌, refl, sym, ap, subst, ◌∙◌, List, arith, get_or, pow_pos,
}
use cominix_fs.Chunk.{ChunkHead, ChunkEntry}
use cominix_fs.Chunk.Alloc.{HeapOk, next_brk, allocated, block_large}
use cominix_fs.Chunk.Fill.{Fits, filled, filled-below}
use cominix_fs.Chunk.Table.{Grows, Holds, Chain, Chain-Grows, Table, slot}
use cominix_fs.Disk.{Disk, byte_at, flat_read, from_le, to_le}
use cominix_fs.Disk.Flat.{flat_read_congr}
use cominix_fs.Disk.Words.{length-to_le}
use cominix_fs.Fs.{Bits, Fs, s_blocksize}
use cominix_fs.LinkedList.Append.{SameHeap}
use cominix_fs.LinkedList.Frame.{SameBlock, Seg-same, Last-same, write-SameBlock}
use cominix_fs.LinkedList.Grow.{Ready, ZmapOk-moved, AllFree-moved}
use cominix_fs.LinkedList.Segment.{moved}
use native.Mathlib.Nat.{mul-le-mul_left}

-- A change to the zones leaves the heap and the hash table.
module _ (s : Fs) (v : HeapOk s) (d : Disk) (m : List Bits) (same : SameHeap s d) where
  abbrev s' : Fs
  s' = moved s s.sb.heap_brk d m

  pub HeapOk-zones : HeapOk s'
  HeapOk-zones = record {
    device = v.device;
    extra = v.extra;
    zones = v.zones;
    aligned = v.aligned;
    slots = v.slots;
    above = v.above;
    below = v.below;
    addressable = v.addressable;
  }

  pub Grows-zones : Grows s s'
  Grows-zones = record {
    same_bits = refl;
    same_end = refl;
    same_buckets = refl;
    brk_up = omega arith;
    same_bytes = λ a lo hi. same a (omega (arith, v.zones));
  }

  slot-zones : (i : ℕ) → slot s' i ≡ slot s i
  slot-zones i = ap from_le (
      flat_read_congr (s_blocksize s) d s.disk (s.sb.hashtable + i * 8) 8
        (λ c lo hi. same c (omega (arith, v.zones))))

  pub Holds-zones : (t : Table) → Holds s t → Holds s' t
  Holds-zones t holds i h =
      subst (λ a. Chain s' i a (t i)) (sym (slot-zones i))
        (Chain-Grows Grows-zones i (slot s i) (t i) (holds i h))

-- A new chunk leaves the lists.
module _ (s : Fs) (c : ChunkHead) (payload : List ℕ) (fits : Fits s c payload) where
  abbrev pub fill_brk : ℕ
  fill_brk = next_brk s c.chunk_length

  abbrev pub fill_disk : Disk
  fill_disk = (filled s c payload fits).disk

  filled-byte :
      (a : ℕ)
      → a + 1 ≤ s.sb.hashtable
      → byte_at (s_blocksize s) fill_disk a
        ≡ byte_at (s_blocksize s) (allocated s c.chunk_length).disk a
  unfolding flat_read
  filled-byte a h = ap (λ xs. get_or xs 0 0) (filled-below s c payload fits a 1 h)

  pub filled-SameBlock :
      (b : ℕ) → b < s.sb.s_nzones → b ≢ s.sb.extra_sb_location → SameBlock s fill_disk b
  unfolding allocated
  filled-SameBlock b lt ne o h =
      filled-byte (b * s_blocksize s + o) (
        omega (
          arith,
          fits.heap.zones,
          mul-le-mul_left {m = b + 1} {n = s.sb.s_nzones} (s_blocksize s) (omega arith),
        ))
      ∙ write-SameBlock (s_blocksize s) s.disk s.sb.extra_sb_location 16
          (to_le 8 (next_brk s c.chunk_length)) b o (pow_pos s.s_blocksize_bits)
          (omega (arith, block_large s fits.heap, length-to_le 8 (next_brk s c.chunk_length)))
          (λ e. ne (sym e)) h

  pub filled-Ready :
      (head end : ℕ) (full : List (List ChunkEntry)) (last : List ChunkEntry) (zs : List ℕ)
      (needed : ℕ)
      → Ready s head end full last zs needed
      → Ready (moved s fill_brk fill_disk s.s_zmap) head end full last zs needed
  filled-Ready head end full last zs needed r =
      let lo = fits.heap.device.bits_lo in
      record {
        zmap = ZmapOk-moved s fill_brk fill_disk s.s_zmap r.zmap;
        guarded = r.guarded;
        list = record {
          seg =
              Seg-same s lo fill_brk fill_disk s.s_zmap end
                (λ b owned ne. (filled-SameBlock b owned.1 owned.3, owned)) head full r.list.seg;
          end_block =
              let owned = r.list.end_block.owned in
              Last-same s lo fill_brk fill_disk s.s_zmap end last
                (filled-SameBlock end owned.1 owned.3) owned r.list.end_block;
          begun = r.list.begun;
        };
        free = AllFree-moved s fill_brk fill_disk s.s_zmap 0 zs r.free;
        room = r.room;
      }

  pub filled-moved : filled s c payload fits ≡ moved s fill_brk fill_disk s.s_zmap
  unfolding filled allocated
  filled-moved = refl
