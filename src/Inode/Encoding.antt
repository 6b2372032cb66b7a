-- ===== src/Inode/Encoding.antt =====
-- `V2_cominix_update_inode` and `V2_cominix_iget` of src/inode.c.
use native.Mathlib.Nat.{mod-lt}
use cominix_fs.Prelude.{
  ℕ, zero, suc, ◌+◌, ◌-◌, ◌*◌, ◌/◌, ◌%◌, ◌^◌, ◌<◌, ◌≤◌, ◌≡◌, refl, sym, ap, ◌∙◌, true, false,
  Option, some, List, [], ◌∷◌, ◌++◌, arith, ==_ne, length, take, drop, get_or, le→ltb, pow_pos, ap₂,
}
use cominix_fs.Bitmap.{raw_inode, cominix_v2_raw_inode}
use cominix_fs.Disk.{flat_read, flat_write, to_le}
use cominix_fs.Disk.Words.{from_le-to_le}
use cominix_fs.Disk.Flat.{flat_read-flat_write}
use cominix_fs.Fs.{Fs, Run, s_blocksize, ok, at, with_disk, ◌>>=◌}
use cominix_fs.Fs.Buffer.{load_bytes-flat, store_bytes-flat}
use cominix_fs.Fs.Device.{sb_bread-ok, pow_split}
use cominix_fs.Inode.{
  RawInode, Inode, FileType, inode, raw_bytes, raw_of, words, zone_bytes, copy_raw, updated,
  cominix_set_inode, v2_cominix_iget, v2_cominix_update_inode, is_device,
}

abbrev pub Zones : List ℕ → Type 0
Zones [] = Unit
Zones (z ∷ zs) = (z < 2 ^ 32) × Zones zs

-- each field fits into its width, and there are ten zones
pub record RawOk (r : RawInode) : Type 0 where
  pub mode : r.mode < 2 ^ 16
  pub nlinks : r.nlinks < 2 ^ 16
  pub uid : r.uid < 2 ^ 16
  pub gid : r.gid < 2 ^ 16
  pub size : r.size < 2 ^ 32
  pub atime : r.atime < 2 ^ 32
  pub mtime : r.mtime < 2 ^ 32
  pub ctime : r.ctime < 2 ^ 32
  pub ten : length r.zone ≡ 10
  pub zones : Zones r.zone

words-zone_bytes : (n : ℕ) (zs : List ℕ) → length zs ≡ n → Zones zs → words n (zone_bytes zs) ≡ zs
unfolding words zone_bytes to_le
words-zone_bytes zero [] e h = refl
words-zone_bytes zero (z ∷ zs) e h = absurd (omega arith)
words-zone_bytes (suc n) [] e h = absurd (omega arith)
words-zone_bytes (suc n) (z ∷ zs) e (small, rest) =
    ap₂ (λ a b. a ∷ b) (from_le-to_le 4 z small) (words-zone_bytes n zs (omega arith) rest)

length-zone_bytes : (zs : List ℕ) → length (zone_bytes zs) ≡ 4 * length zs
unfolding zone_bytes to_le
length-zone_bytes [] = refl
length-zone_bytes (z ∷ zs) = omega (arith, length-zone_bytes zs)

length-raw_bytes : (r : RawInode) → length r.zone ≡ 10 → length (raw_bytes r) ≡ 64
unfolding raw_bytes to_le
length-raw_bytes r e = omega (arith, length-zone_bytes r.zone)

raw_of-raw_bytes : (r : RawInode) → RawOk r → raw_of (raw_bytes r) ≡ r
unfolding raw_of raw_bytes to_le
raw_of-raw_bytes r v i = record {
  mode = from_le-to_le 2 r.mode v.mode i;
  nlinks = from_le-to_le 2 r.nlinks v.nlinks i;
  uid = from_le-to_le 2 r.uid v.uid i;
  gid = from_le-to_le 2 r.gid v.gid i;
  size = from_le-to_le 4 r.size v.size i;
  atime = from_le-to_le 4 r.atime v.atime i;
  mtime = from_le-to_le 4 r.mtime v.mtime i;
  ctime = from_le-to_le 4 r.ctime v.ctime i;
  zone = words-zone_bytes 10 r.zone v.ten v.zones i;
}

module _ (s : Fs) (ino : ℕ) where
  abbrev pub per_block : ℕ
  per_block = s_blocksize s / 64

  abbrev pub inode_block : ℕ
  inode_block = 2 + s.sb.s_imap_blocks + s.sb.s_zmap_blocks + (ino - 1) / per_block

  abbrev inode_offset : ℕ
  inode_offset = (ino - 1) % per_block * 64

  -- the number is in range, and its block can be read
  pub record HasInode : Type 0 where
    pub bits : 9 ≤ s.s_blocksize_bits
    pub not_zero : 0 < ino
    pub in_range : ino ≤ s.sb.s_ninodes
    pub readable : s.readable inode_block ≡ true

  module _ (h : HasInode) where
    inode_fits : inode_offset + 64 ≤ s_blocksize s
    inode_fits =
        let some_inodes : 0 < per_block =
          omega (arith, pow_split s.s_blocksize_bits h.bits, pow_pos (s.s_blocksize_bits - 9)) in
        omega (arith, mod-lt (ino - 1) some_inodes)

    v2_raw_inode-ok : cominix_v2_raw_inode ino s ≡ ok (some (at inode_block inode_offset)) s
    unfolding cominix_v2_raw_inode raw_inode
    v2_raw_inode-ok = rw (
      ==_ne ino 0 (λ z. omega (arith, h.not_zero)),
      le→ltb s.sb.s_ninodes ino h.in_range,
      sb_bread-ok s inode_block h.readable,
    )

-- What a disk inode can hold: 16 bits of mode, link count and ids, 32 bits of size and times and of
-- each of the first ten zones.
pub record Encodable (i : Inode) : Type 0 where
  pub mode : i.i_mode < 2 ^ 16
  pub nlink : i.i_nlink < 2 ^ 16
  pub uid : i.i_uid < 2 ^ 16
  pub gid : i.i_gid < 2 ^ 16
  pub size : i.i_size < 2 ^ 32
  pub atime : i.i_atime < 2 ^ 32
  pub mtime : i.i_mtime < 2 ^ 32
  pub ctime : i.i_ctime < 2 ^ 32
  pub ten : length (take 10 i.i_data) ≡ 10
  pub zones : Zones (take 10 i.i_data)

-- the new inode `new` with what the disk keeps of `i`
abbrev pub read_back : Inode → Inode → Inode
read_back i new = record new {
  i_mode = i.i_mode;
  i_uid = i.i_uid;
  i_gid = i.i_gid;
  i_nlink = i.i_nlink;
  i_size = i.i_size;
  i_mtime = i.i_mtime;
  i_atime = i.i_atime;
  i_ctime = i.i_ctime;
  i_blocks = 0;
  i_data = take 10 i.i_data ++ drop 10 new.i_data;
}

-- the disk inode of `i`
image : Inode → RawInode
image i = record {
  mode = i.i_mode;
  nlinks = i.i_nlink;
  uid = i.i_uid;
  gid = i.i_gid;
  size = i.i_size;
  atime = i.i_atime;
  mtime = i.i_mtime;
  ctime = i.i_ctime;
  zone = take 10 i.i_data;
}

image-RawOk : (i : Inode) → Encodable i → RawOk (image i)
unfolding image
image-RawOk i v = record {
  mode = v.mode;
  nlinks = v.nlink;
  uid = v.uid;
  gid = v.gid;
  size = v.size;
  atime = v.atime;
  mtime = v.mtime;
  ctime = v.ctime;
  ten = v.ten;
  zones = v.zones;
}

module _ (file_type : ℕ → FileType) (init_special_inode : ℕ → Inode → Inode)
    (old_decode_dev old_encode_dev : ℕ → ℕ) (fs_high2lowuid fs_high2lowgid : ℕ → ℕ) (s : Fs)
    (i new : Inode) where
  abbrev write_back : Fs → Run (Option ℕ)
  write_back =
      v2_cominix_update_inode file_type init_special_inode old_decode_dev old_encode_dev
        fs_high2lowuid fs_high2lowgid i

  abbrev place : ℕ
  place = inode_block s i.i_ino * s_blocksize s + inode_offset s i.i_ino

  abbrev written : Fs
  written = with_disk s (flat_write (s_blocksize s) s.disk place (raw_bytes (image i)))

  updated-image :
      (old : RawInode)
      → fs_high2lowuid i.i_uid ≡ i.i_uid
      → fs_high2lowgid i.i_gid ≡ i.i_gid
      → is_device (file_type i.i_mode) ≡ false
      → updated file_type init_special_inode old_decode_dev old_encode_dev fs_high2lowuid
          fs_high2lowgid old i
        ≡ image i
  unfolding updated image
  updated-image old u g d = rw (u, g, d)

  update_inode-written :
      HasInode s i.i_ino
      → Encodable i
      → fs_high2lowuid i.i_uid ≡ i.i_uid
      → fs_high2lowgid i.i_gid ≡ i.i_gid
      → is_device (file_type i.i_mode) ≡ false
      → write_back s ≡ ok (some (inode_block s i.i_ino)) written
  unfolding v2_cominix_update_inode
  update_inode-written h v u g d =
      let b = inode_block s i.i_ino in
      let o = inode_offset s i.i_ino in
      let old = raw_of (flat_read (s_blocksize s) s.disk place 64) in
      let fits = inode_fits s i.i_ino h in
      rw (
        v2_raw_inode-ok s i.i_ino h,
        load_bytes-flat s b o 64 fits,
        updated-image old u g d,
        store_bytes-flat s b o (raw_bytes (image i))
            (omega (arith, length-raw_bytes (image i) (image-RawOk i v).ten)),
      )

  -- An inode with links and not of a device, whose fields fit into a disk inode, whose ids have the
  -- same 16-bit form, and whose number is in range with a readable block, is read back into a new
  -- inode of its number as it was written, with the operations of its kind.
  pub iget-update_inode :
      HasInode s i.i_ino
      → Encodable i
      → fs_high2lowuid i.i_uid ≡ i.i_uid
      → fs_high2lowgid i.i_gid ≡ i.i_gid
      → is_device (file_type i.i_mode) ≡ false
      → 0 < i.i_nlink
      → new.i_ino ≡ i.i_ino
      → (s' : Fs) × ((v2_cominix_update_inode file_type init_special_inode old_decode_dev
                old_encode_dev fs_high2lowuid fs_high2lowgid i
              >>= λ _.
                  v2_cominix_iget file_type init_special_inode old_decode_dev old_encode_dev
                    fs_high2lowuid fs_high2lowgid new)
            s
          ≡ ok
              (inode (
                cominix_set_inode file_type init_special_inode old_decode_dev old_encode_dev
                  fs_high2lowuid fs_high2lowgid
                  (read_back i new)
                  (old_decode_dev (get_or (take 10 i.i_data) 0 0))))
              s')
  unfolding v2_cominix_iget copy_raw image
  iget-update_inode h v u g d links same =
      let b = inode_block s i.i_ino in
      let o = inode_offset s i.i_ino in
      let sized : 64 ≡ length (raw_bytes (image i)) =
        sym (length-raw_bytes (image i) (image-RawOk i v).ten) in
      let bytes : flat_read (s_blocksize s) written.disk place 64 ≡ raw_bytes (image i) =
        ap (λ n. flat_read (s_blocksize s) written.disk place n) sized
        ∙ flat_read-flat_write (s_blocksize s) (pow_pos s.s_blocksize_bits) s.disk place
            (raw_bytes (image i)) in
      let found : cominix_v2_raw_inode new.i_ino written ≡ ok (some (at b o)) written =
        ap (λ n. cominix_v2_raw_inode n written) same
        ∙ v2_raw_inode-ok written i.i_ino (record {
          bits = h.bits;
          not_zero = h.not_zero;
          in_range = h.in_range;
          readable = h.readable;
        }) in
      (
        written,
        rw (
          update_inode-written h v u g d,
          found,
          load_bytes-flat written b o 64 (inode_fits s i.i_ino h),
          bytes,
          raw_of-raw_bytes (image i) (image-RawOk i v),
          ==_ne i.i_nlink 0 (λ z. omega arith),
        ),
      )
