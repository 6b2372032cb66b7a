-- ===== src/Tests/Zones.antt =====
-- The bitmaps of the small device.
use cominix_fs.Prelude.{ℕ, ltb, true, [], ◌∷◌, ◌≡◌, refl, arith}
use cominix_fs.Bitmap.Alloc.{ZmapOk, IsFree, NewBlock, busy, cominix_new_block-NewBlock}
use cominix_fs.Bitmap.Count.{blocks_for, clear_in, cominix_count_free_blocks-clear}
use cominix_fs.Bitmap.Free.{free_block-new_block}
use cominix_fs.Bitmap.Inodes.{ImapOk, NumberTaken, cominix_new_inode-NumberTaken}
use cominix_fs.Bitmap.Maps.{bit_at}
use cominix_fs.Bitmap.{
  bits_per_zone, cominix_count_free_blocks, NewInode, cominix_new_inode, cominix_new_block,
  cominix_free_block,
}
use cominix_fs.Fs.{Fs, ok, ◌>>=◌}
use cominix_fs.Tests.Bits.{bit_ops}
use cominix_fs.Tests.{small_fs}

pub small_ZmapOk : ZmapOk small_fs
unfolding bit_at
small_ZmapOk = record {
  sized = refl;
  zero_taken = refl;
  first_pos = omega arith;
  enough = omega arith;
  small = omega arith;
}

zone_2-IsFree : IsFree small_fs 2
unfolding bit_at
zone_2-IsFree = (omega arith, omega arith, refl)

cominix_new_block-NewBlock_example :
    (r : ℕ) × (s' : Fs) × (cominix_new_block bit_ops small_fs ≡ ok r s')
    × NewBlock bit_ops small_fs small_ZmapOk r s'
cominix_new_block-NewBlock_example = cominix_new_block-NewBlock bit_ops small_fs small_ZmapOk

free_block-new_block_example :
    (s'' : Fs) × ((cominix_new_block bit_ops >>= cominix_free_block bit_ops) small_fs ≡ ok tt s'')
    × ((k : ℕ) → busy s'' k ≡ busy small_fs k)
free_block-new_block_example = free_block-new_block bit_ops small_fs 2 small_ZmapOk zone_2-IsFree

-- inodes 1 and 2 are in use
abbrev inode_fs : Fs
inode_fs = record small_fs { s_imap = (λ n. ltb n 3) ∷ [] }

inode_fs-ImapOk : ImapOk inode_fs
unfolding bit_at
inode_fs-ImapOk = record { sized = refl; zero_used = refl; enough = omega arith }

cominix_new_inode-NumberTaken_example :
    (r : NewInode) × (s' : Fs) × (cominix_new_inode bit_ops true inode_fs ≡ ok r s')
    × NumberTaken bit_ops inode_fs inode_fs-ImapOk r s'
    × (s' ≡ record inode_fs { s_imap = s'.s_imap })
cominix_new_inode-NumberTaken_example =
    cominix_new_inode-NumberTaken bit_ops inode_fs inode_fs-ImapOk

cominix_count_free_blocks-clear_example :
    cominix_count_free_blocks bit_ops small_fs
    ≡ ok (clear_in (bits_per_zone small_fs) small_fs.s_zmap (blocks_for small_fs 4)) small_fs
cominix_count_free_blocks-clear_example =
    cominix_count_free_blocks-clear bit_ops small_fs (omega arith) refl (omega arith) (omega arith)
      (omega arith) (omega arith)
