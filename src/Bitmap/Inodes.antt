-- ===== src/Bitmap/Inodes.antt =====
-- `cominix_new_inode` of src/bitmap.c.
use native.Mathlib.Nat.{mul-le-mul_left}
use mathlib.Core.Bool.{false≢true}
use cominix_fs.Prelude.{
  ℕ, zero, suc, ◌+◌, ◌*◌, ◌<◌, ◌≤◌, ◌≡◌, ◌≢◌, refl, sym, ap, ◌∙◌, Bool, true, false, ◌⊎◌, inl, inr,
  Option, none, some, arith, ◌==◌, ◌||◌, ==_ne, ltb, ltb→lt, if◌then◌else◌, Bool-cases, length,
  get_or, div_of, mod_of,
}
use cominix_fs.BitOps.{BitOps}
use cominix_fs.Fs.{Fs, ok, Run}
use cominix_fs.Bitmap.{bits_per_zone, find_inode, cominix_new_inode, NewInode, new_ino, enospc}
use cominix_fs.Bitmap.Alloc.{busy, map_at-get_or, busy_at, busy_up_to, w_pos}
use cominix_fs.Bitmap.Maps.{mark, bit_at-mark}

-- the inode bitmap in the place of the zone bitmap, so that what holds of bits holds of it
abbrev inodes_of : Fs → Fs
inodes_of s = record s { s_zmap = s.s_imap }

-- whether inode number `n` is in use
abbrev pub used : Fs → ℕ → Bool
used s n = busy (inodes_of s) n

-- The inode maps as `cominix_fill_super` leaves them: as many blocks as the super block says, bit 0
-- set, and a bit for every inode.
pub record ImapOk (s : Fs) : Type 0 where
  pub sized : length s.s_imap ≡ s.sb.s_imap_blocks
  pub zero_used : used s 0 ≡ true
  pub enough : s.sb.s_ninodes < length s.s_imap * bits_per_zone s

module _ (ops : BitOps) (s : Fs) where
  abbrev Lowest : Run (Option (ℕ × ℕ)) → Type 0
  Lowest run =
      ((a : ℕ) × (f : ℕ) × (a < length s.s_imap)
        × (f < bits_per_zone s)
        × (a * bits_per_zone s + f < length s.s_imap * bits_per_zone s)
        × (used s (a * bits_per_zone s + f) ≡ false)
        × ((k : ℕ) → k < a * bits_per_zone s + f → used s k ≡ true)
        × (run ≡ ok (some (a, f)) s))
      ⊎ (((k : ℕ) → k < length s.s_imap * bits_per_zone s → used s k ≡ true) × (run ≡ ok none s))

  find_inode-Lowest :
      (rounds i : ℕ)
      → i + rounds ≡ length s.s_imap
      → ((k : ℕ) → k < i * bits_per_zone s → used s k ≡ true)
      → Lowest (find_inode ops rounds i s)
  unfolding find_inode
  find_inode-Lowest zero i e before = inr (λ k h. before k (grind arith), refl)
  find_inode-Lowest (suc rounds) i e before =
      let w = bits_per_zone s in
      let b = get_or s.s_imap i (λ _. true) in
      let f = ops.find_first_zero_bit b w in
      let lower =
        busy_up_to ops (inodes_of s) i f before (λ j h. ops.find-first b w j h) (ops.find-le b w) in
      let inside : (i + 1) * w ≤ length s.s_imap * w =
        omega (arith, mul-le-mul_left {m = i + 1} {n = length s.s_imap} w (omega arith)) in
      rw (map_at-get_or s.s_imap i s (omega arith)) (elim (Bool-cases (ltb f w)) [
        | inl found ↦
            let lt : f < w = ltb→lt f w found in
            inl (
              i,
              f,
              omega arith,
              lt,
              omega arith,
              busy_at ops (inodes_of s) i f lt ∙ ops.find-clear b w lt,
              lower,
              rw found,
            )
        | inr full ↦
            let above : w ≤ f = ground arith in
            let all : f ≡ w = omega (arith, ops.find-le b w) in
            rw full (find_inode-Lowest rounds (i + 1) (omega arith) (λ k h. lower k (omega arith)))
      ])

module _ (ops : BitOps) (s : Fs) (v : ImapOk s) where
  -- what the call returns and leaves
  abbrev pub NumberTaken : NewInode → Fs → Type 0
  NumberTaken r s' =
      ((n : ℕ) × (r ≡ new_ino n)
        × (0 < n)
        × (n ≤ s.sb.s_ninodes)
        × (used s n ≡ false)
        × ((k : ℕ) → k < n → used s k ≡ true)
        × ((k : ℕ) → used s' k ≡ (if n == k then true else used s k)))
      ⊎ ((r ≡ enospc) × ((n : ℕ) → n ≤ s.sb.s_ninodes → used s n ≡ true))

  marked_inode : ℕ → Fs
  marked_inode n = record s { s_imap = mark ops (bits_per_zone s) s.s_imap n }

  number_of : ℕ → NewInode
  number_of n = if n == 0 || ltb s.sb.s_ninodes n then enospc else new_ino n

  marked-NumberTaken :
      (n : ℕ)
      → n < length s.s_imap * bits_per_zone s
      → used s n ≡ false
      → ((k : ℕ) → k < n → used s k ≡ true)
      → NumberTaken (number_of n) (marked_inode n)
  unfolding number_of marked_inode
  marked-NumberTaken n h free lowest =
      let not_zero : n ≢ 0 = λ z. absurd (false≢true (sym free ∙ ap (used s) z ∙ v.zero_used)) in
      rw (==_ne n 0 not_zero) (elim (Bool-cases (ltb s.sb.s_ninodes n)) [
        | inl past ↦
            rw past (inr (refl, λ k le. lowest k (omega (arith, ltb→lt s.sb.s_ninodes n past))))
        | inr within ↦ rw within (
            inl (
              n,
              refl,
              omega arith,
              ground arith,
              free,
              lowest,
              λ k. bit_at-mark ops (bits_per_zone s) (w_pos ops s) s.s_imap n k h,
            ))
      ])

  -- On well-formed inode maps, and when the kernel gives an inode in memory, `cominix_new_inode`
  -- ends without a fault. It returns the lowest number that is not in use, which is not above the
  -- number of inodes, and sets its bit and no other, or it fails for lack of space and every number
  -- up to the number of inodes is in use. Only the inode maps change.
  pub cominix_new_inode-NumberTaken :
      (r : NewInode) × (s' : Fs) × (cominix_new_inode ops true s ≡ ok r s')
      × NumberTaken r s'
      × (s' ≡ record s { s_imap = s'.s_imap })
  unfolding cominix_new_inode number_of marked_inode
  cominix_new_inode-NumberTaken =
      elim (find_inode-Lowest ops s s.sb.s_imap_blocks 0 (omega (arith, v.sized))
        (λ k h. absurd (omega arith))) [
          | inl (a, f, block, lt, h, free, lowest, run) ↦
              let w = bits_per_zone s in
              let n = a * w + f in
              let clear : get_or s.s_imap a (λ _. true) f ≡ false =
                sym (busy_at ops (inodes_of s) a f lt) ∙ free in
              let order : f + a * w ≡ a * w + f = omega arith in
              (
                number_of n,
                marked_inode n,
                rw (
                  run,
                  map_at-get_or s.s_imap a s block,
                  clear,
                  order,
                  div_of w (w_pos ops s) a f lt,
                  mod_of w (w_pos ops s) a f lt,
                ),
                marked-NumberTaken n h free lowest,
                refl,
              )
          | inr (all, run) ↦
              (enospc, s, rw run, inr (refl, λ n le. all n (omega (arith, v.enough))), refl)
        ]
