-- ===== src/File/Begin.antt =====
-- How `chunk_and_replace` of src/file.c begins: with the first block of the list.
use native.Mathlib.Nat.{mul-le-mul_left}
use cominix_fs.Prelude.{
  ℕ, ◌+◌, ◌*◌, ◌<◌, ◌≤◌, ◌≡◌, ◌≢◌, refl, ap, subst, Bool, Option, inl, inr, List, [], ◌∷◌, arith,
  length,
}
use cominix_fs.BitOps.{BitOps}
use cominix_fs.Bitmap.Alloc.{ZmapOk}
use cominix_fs.Chunk.Table.{Table}
use cominix_fs.Disk.{Disk}
use cominix_fs.File.Cut.{chunks_of, Promises, Round}
use cominix_fs.File.Store.{Store}
use cominix_fs.Fs.{Bits, Fs, ok}
use cominix_fs.LinkedList.{entries_per_block, ll_alloc_new_block, zero_out_block}
use cominix_fs.LinkedList.Append.{Guarded, Fresh-Owned, Owned-apart, zeroed-SameHeap, SameHeap}
use cominix_fs.LinkedList.Fresh.{
  zoned, zone_bit, ll_alloc_new_block-Fresh, zeroed, zeroed-SameBlock, zeroed-Last,
  zero_out_block-ok,
}
use cominix_fs.LinkedList.Grow.{AllFree, AllFree-taken, AllFree-moved, ZmapOk-moved, List-cases}
use cominix_fs.LinkedList.Heap.{HeapOk-zones, Holds-zones}
use cominix_fs.LinkedList.Segment.{Owned, moved, owned-readable}
use cominix_fs.LinkedList.Frame.{SameBlock}

-- The zones `zs` are free and enough for the list of a file of `r` bytes, with its first block.
pub record HasZones (s : Fs) (zs : List ℕ) (r : ℕ) : Type 0 where
  pub free : AllFree s 0 zs
  pub some_zone : 0 < length zs
  pub enough : chunks_of r ≤ length zs * entries_per_block s

module _ (kernel_read : ℕ → ℕ → Option (List ℕ)) (kmalloc : ℕ → Bool)
    (md5_hash : List ℕ → Option (List ℕ)) (ops : BitOps) (md5 : List ℕ → List ℕ)
    (Occurs : List ℕ → Type 0) (file : List ℕ)
    (k : Promises kernel_read kmalloc md5_hash ops md5 Occurs file) (s : Fs) (t : Table)
    (store : Store md5 Occurs s t) (zmap : ZmapOk s) (guarded : Guarded s) (zs : List ℕ)
    (zones : HasZones s zs (length file))
    (room : s.sb.heap_brk + length file + 47 * chunks_of (length file) < s.sb.max_brk) where
  -- the zones in use but for `head` keep their bytes, and stay in use
  abbrev pub Others : Disk → List Bits → ℕ → Type 0
  Others d m head =
      (c : ℕ) → Owned s c → SameBlock s d c × Owned (moved s s.sb.heap_brk d m) c × (c ≢ head)

  -- The list's first block, and the state in which the loop begins.
  abbrev pub Begun : Type 0
  Begun =
      (head : ℕ) × (m : List Bits) × (d : Disk) × (zs' : List ℕ) × (ll_alloc_new_block ops s
        ≡ ok head (zoned s m))
      × (zero_out_block head (zoned s m) ≡ ok tt (moved s s.sb.heap_brk d m))
      × Round kernel_read kmalloc md5_hash ops md5 Occurs file k (moved s s.sb.heap_brk d m) t head
          head [] [] zs' (length file)
      × SameHeap s d
      × Others d m head

  begin_with : (z : ℕ) (more : List ℕ) → zs ≡ z ∷ more → Begun
  begin_with z more some_zone =
      let free = zones.free in
      let (head, m, new) =
        ll_alloc_new_block-Fresh ops s zmap z ((subst (AllFree s 0) some_zone free).1) in
      let (zs', rest, fewer) = AllFree-taken ops s head m new 0 zs free in
      let sz = zoned s m in
      let lo = store.heap.device.bits_lo in
      let d = zeroed sz head in
      let same = zeroed-SameHeap sz head new.free.1 in
      let count : length zs * entries_per_block s ≤ (length zs' + 1) * entries_per_block s =
        omega (
          arith,
          mul-le-mul_left {m = length zs} {n = length zs' + 1} (entries_per_block s) fewer,
        ) in
      (
        head,
        m,
        d,
        zs',
        new.run,
        zero_out_block-ok sz lo head (owned-readable s head store.heap new.free.1),
        record {
          store = record {
            heap = HeapOk-zones s store.heap d m same;
            holds = Holds-zones s store.heap d m same t store.holds;
            hashed = store.hashed;
          };
          ready = record {
            zmap = ZmapOk-moved s s.sb.heap_brk d m new.valid;
            guarded = new.keeps (zone_bit s s.sb.extra_sb_location) guarded;
            list = record {
              seg = refl;
              end_block = zeroed-Last sz lo head (Fresh-Owned ops s head m guarded new);
              begun = inl refl;
            };
            free = AllFree-moved s s.sb.heap_brk d m 0 zs' rest;
            room = omega (arith, zones.enough, count);
          };
          room = room;
        },
        same,
        λ c owned.
            let ne = Owned-apart ops s head m new c owned in
            (
              zeroed-SameBlock sz lo head c ne,
              (owned.0, owned.1, new.keeps (zone_bit s c) owned.2, owned.3),
              ne,
            ),
      )

  pub begin : Begun
  begin = elim (List-cases zs) [
    | inl empty ↦ absurd (omega (arith, zones.some_zone, ap length empty))
    | inr (z, more, some_zone) ↦ begin_with z more some_zone
  ]
