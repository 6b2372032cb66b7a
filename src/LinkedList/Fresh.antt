-- ===== src/LinkedList/Fresh.antt =====
-- A new block of a list: `ll_alloc_new_block` and `zero_out_block` of src/linked_list.h, and the
-- link to it.
use cominix_fs.Prelude.{
  ℕ, zero, suc, ◌+◌, ◌-◌, ◌*◌, ◌^◌, ◌<◌, ◌≤◌, ◌≢◌, ◌≡◌, refl, sym, ap, ap₂, subst, ◌∙◌, true, List,
  [], ◌∷◌, arith, get_or, replicate, length-replicate, inl, inr, ◌==◌, ==_ne, if◌then◌else◌,
  pow_pos,
}
use cominix_fs.BitOps.{BitOps}
use cominix_fs.Bitmap.Alloc.{
  busy, ZmapOk, IsFree, cominix_new_block-NewBlock, cominix_new_block_sb-eq,
}
use cominix_fs.Chunk.{ChunkEntry}
use cominix_fs.Disk.{Disk, flat_read, flat_write, from_le, to_le, byte_at}
use cominix_fs.Disk.Flat.{flat_read-flat_write, flat_read-flat_write_apart, byte_at-flat_write}
use cominix_fs.Disk.Words.{from_le-to_le, length-to_le}
use cominix_fs.Fs.{Bits, Fs, s_blocksize, ok, at, with_disk, store_bytes, b_data}
use cominix_fs.Fs.Buffer.{store_bytes-flat}
use cominix_fs.Fs.Device.{load_block-ok}
use cominix_fs.LinkedList.{entries_per_block, entry_of, ll_alloc_new_block, zero_out_block}
use cominix_fs.LinkedList.Frame.{block_size, SameBlock, write-SameBlock}
use cominix_fs.LinkedList.Search.{entry_at, link_at, Entries, entry_in_block}
use cominix_fs.LinkedList.Segment.{Owned, Last}

abbrev pub zoned : Fs → List Bits → Fs
zoned s m = record s { s_zmap = m }

abbrev pub zone_bit : Fs → ℕ → ℕ
zone_bit s z = z - s.sb.s_firstdatazone + 1

-- A zone that was free is taken, and its bit alone is set.
pub record Fresh (ops : BitOps) (s : Fs) (r : ℕ) (m : List Bits) : Type 0 where
  pub run : ll_alloc_new_block ops s ≡ ok r (zoned s m)
  pub free : IsFree s r
  pub bits : (k : ℕ) → busy (zoned s m) k ≡ (if zone_bit s r == k then true else busy s k)
  pub valid : ZmapOk (zoned s m)
  pub keeps : (k : ℕ) → busy s k ≡ true → busy (zoned s m) k ≡ true

pub ll_alloc_new_block-Fresh :
    (ops : BitOps) (s : Fs)
    → ZmapOk s
    → (z : ℕ) → IsFree s z
    → (r : ℕ) × (m : List Bits) × Fresh ops s r m
unfolding ll_alloc_new_block
ll_alloc_new_block-Fresh ops s v z free =
    let (r, s', run, new) = cominix_new_block-NewBlock ops s v in
    let run_sb = cominix_new_block_sb-eq ops s v ∙ run in
    let same = new.only_zmap in
    elim new.taken [
      | inl (was_free, lowest, bits) ↦
          let some_zone : r ≢ 0 = λ e. omega (arith, was_free.0, v.first_pos) in
          (
            r,
            s'.s_zmap,
            record {
              run = rw (run_sb, ==_ne r 0 some_zone) (ap (ok r) same);
              free = was_free;
              bits =
                  subst (λ t. (k : ℕ) → busy t k ≡ (if zone_bit s r == k then true else busy s k))
                    same bits;
              valid = subst ZmapOk same new.valid;
              keeps = subst (λ t. (k : ℕ) → busy s k ≡ true → busy t k ≡ true) same new.keeps;
            },
          )
      | inr (is_zero, full) ↦ absurd (full z free)
    ]

abbrev pub zeroed : Fs → ℕ → Disk
zeroed s b = flat_write (s_blocksize s) s.disk (b * s_blocksize s) (replicate (s_blocksize s) 0)

abbrev pub with_link : Fs → ℕ → ℕ → Disk
with_link s b v =
    flat_write (s_blocksize s) s.disk (b * s_blocksize s + (s_blocksize s - 4)) (to_le 4 v)

get_or-replicate : (n k : ℕ) → get_or {A = ℕ} (replicate n 0) k 0 ≡ 0
get_or-replicate zero k = refl
get_or-replicate (suc n) zero = refl
get_or-replicate (suc n) (suc k) = get_or-replicate n k

-- zero bytes are the integer 0
from_le-zeroes :
    (size : ℕ) (d : Disk) (a n : ℕ)
    → ((c : ℕ) → a ≤ c → c < a + n → byte_at size d c ≡ 0)
    → from_le (flat_read size d a n) ≡ 0
unfolding from_le flat_read
from_le-zeroes size d a zero h = refl
from_le-zeroes size d a (suc n) h = rw (
  h a (omega arith) (omega arith),
  from_le-zeroes size d (a + 1) n (λ c lo hi. h c (omega arith) (omega arith)),
)

module _ (s : Fs) (lo : 9 ≤ s.s_blocksize_bits) (b : ℕ) where
  big : 0 < s_blocksize s
  big = pow_pos s.s_blocksize_bits

  zeroed_word :
      (o n : ℕ)
      → o + n ≤ s_blocksize s
      → from_le (flat_read (s_blocksize s) (zeroed s b) (b * s_blocksize s + o) n) ≡ 0
  zeroed_word o n h =
      let size = s_blocksize s in
      from_le-zeroes size (zeroed s b) (b * size + o) n λ c above below.
        rw (byte_at-flat_write size big s.disk (b * size) (replicate size 0) c)
          (ground (arith, get_or-replicate size (c - b * size), length-replicate {A = ℕ} size 0))

  pub zeroed-Last : Owned s b → Last (with_disk s (zeroed s b)) b []
  unfolding entry_at
  zeroed-Last owned = record {
    owned = owned;
    fits = omega arith;
    array = λ k h.
        let room = entry_in_block s lo k h in
        ap₂ entry_of (zeroed_word (16 * k) 8 (omega arith))
          (zeroed_word (16 * k + 8) 8 (omega arith));
    positive = tt;
    ends = zeroed_word (s_blocksize s - 4) 4 (omega (arith, block_size s lo));
  }

  pub zeroed-SameBlock : (c : ℕ) → c ≢ b → SameBlock s (zeroed s b) c
  zeroed-SameBlock c ne o h =
      let size = s_blocksize s in
      let z : b * size ≡ b * size + 0 = omega arith in
      ap (λ a. byte_at size (flat_write size s.disk a (replicate size 0)) (c * size + o)) z
      ∙ write-SameBlock size s.disk b 0 (replicate size 0) c o big
          (omega (arith, length-replicate {A = ℕ} size 0)) (λ e. ne (sym e)) h

  pub store_zeroes :
      store_bytes (at b 0) (replicate (s_blocksize s) 0) s ≡ ok tt (with_disk s (zeroed s b))
  store_zeroes =
      let size = s_blocksize s in
      let z : b * size + 0 ≡ b * size = omega arith in
      store_bytes-flat s b 0 (replicate size 0) (omega (arith, length-replicate {A = ℕ} size 0))
      ∙ ap (λ a. ok tt (with_disk s (flat_write size s.disk a (replicate size 0)))) z

  pub zero_out_block-ok :
      s.readable b ≡ true → zero_out_block b s ≡ ok tt (with_disk s (zeroed s b))
  unfolding zero_out_block b_data
  zero_out_block-ok readable = rw (load_block-ok s b lo readable) store_zeroes

  module _ (v : ℕ) where
    pub link_new : v < 256 ^ 4 → link_at (with_disk s (with_link s b v)) b ≡ v
    unfolding to_le
    link_new small =
        ap from_le (
          flat_read-flat_write (s_blocksize s) big s.disk (b * s_blocksize s + (s_blocksize s - 4))
            (to_le 4 v))
        ∙ from_le-to_le 4 v small

    pub link-SameBlock : (c : ℕ) → c ≢ b → SameBlock s (with_link s b v) c
    link-SameBlock c ne o h =
        write-SameBlock (s_blocksize s) s.disk b (s_blocksize s - 4) (to_le 4 v) c o big
          (omega (arith, length-to_le 4 v, block_size s lo)) (λ e. ne (sym e)) h

    entry_link :
        (k : ℕ)
        → k < entries_per_block s
        → entry_at (with_disk s (with_link s b v)) b k ≡ entry_at s b k
    unfolding entry_at
    entry_link k h =
        let size = s_blocksize s in
        let room = entry_in_block s lo k h in
        ap₂ (λ x y. entry_of (from_le x) (from_le y))
          (flat_read-flat_write_apart size big s.disk (b * size + (size - 4)) (to_le 4 v)
            (b * size + 16 * k) 8 (inl (omega arith)))
          (flat_read-flat_write_apart size big s.disk (b * size + (size - 4)) (to_le 4 v)
            (b * size + (16 * k + 8)) 8 (inl (omega arith)))

    -- a link leaves the entries of its block as they are
    pub Entries-link :
        (i : ℕ) (es : List ChunkEntry)
        → Entries s b i es
        → Entries (with_disk s (with_link s b v)) b i es
    Entries-link i [] (fits, zero_behind) =
        (fits, λ lt. ap (λ (e : ChunkEntry). e.size) (entry_link i lt) ∙ zero_behind lt)
    Entries-link i (e ∷ es) (lt, is, some_data, rest) =
        (lt, entry_link i lt ∙ is, some_data, Entries-link (i + 1) es rest)
