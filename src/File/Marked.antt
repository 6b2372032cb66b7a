-- ===== src/File/Marked.antt =====
-- The inode that `chunk_and_replace` of src/file.c leaves: its mark and its list.
use cominix_fs.Prelude.{
  ℕ, ◌-◌, ◌^◌, ◌≤◌, ◌≢◌, ◌≡◌, refl, ◌∙◌, true, List, arith, length, get_or, set, length-set,
  get_or-set_self, get_or-set_other,
}
use cominix_fs.File.{get_list_head}
use cominix_fs.File.Replace.{set_list}
use cominix_fs.Inode.{Inode, switch_inode_to_chunked, inode_is_chunked}

module _ (i : Inode) (sized : 10 ≤ length i.i_data) (head ll_size end : ℕ) where
  abbrev chunked : Inode
  chunked = set_list head ll_size end (switch_inode_to_chunked i)

  abbrev marks : List ℕ
  marks = set (set i.i_data 0 (2 ^ 32 - 1)) 9 (2 ^ 32 - 1)

  length-marks : 10 ≤ length marks
  length-marks = omega (
    arith,
    length-set (set i.i_data 0 (2 ^ 32 - 1)) 9 (2 ^ 32 - 1),
    length-set i.i_data 0 (2 ^ 32 - 1),
    sized,
  )

  -- the three writes leave the marks
  other_word :
      (j : ℕ)
      → 1 ≢ j
      → 2 ≢ j
      → 3 ≢ j
      → get_or (set (set (set marks 1 head) 2 ll_size) 3 end) j 0 ≡ get_or marks j 0
  other_word j one two three =
      get_or-set_other (set (set marks 1 head) 2 ll_size) 3 j end 0 three
      ∙ get_or-set_other (set marks 1 head) 2 j ll_size 0 two
      ∙ get_or-set_other marks 1 j head 0 one

  pub chunked-marked : inode_is_chunked chunked ≡ true
  unfolding inode_is_chunked set_list switch_inode_to_chunked
  chunked-marked =
      let first : get_or (set (set (set marks 1 head) 2 ll_size) 3 end) 0 0 ≡ 2 ^ 32 - 1 =
        other_word 0 (λ e. omega arith) (λ e. omega arith) (λ e. omega arith)
        ∙ get_or-set_other (set i.i_data 0 (2 ^ 32 - 1)) 9 0 (2 ^ 32 - 1) 0 (λ e. omega arith)
        ∙ get_or-set_self i.i_data 0 (2 ^ 32 - 1) 0 (omega (arith, sized)) in
      let last : get_or (set (set (set marks 1 head) 2 ll_size) 3 end) 9 0 ≡ 2 ^ 32 - 1 =
        other_word 9 (λ e. omega arith) (λ e. omega arith) (λ e. omega arith)
        ∙ get_or-set_self (set i.i_data 0 (2 ^ 32 - 1)) 9 (2 ^ 32 - 1) 0
            (omega (arith, sized, length-set i.i_data 0 (2 ^ 32 - 1))) in
      rw (first, last)

  pub chunked-head : get_list_head chunked ≡ head
  unfolding get_list_head set_list switch_inode_to_chunked
  chunked-head =
      get_or-set_other (set (set marks 1 head) 2 ll_size) 3 1 end 0 (λ e. omega arith)
      ∙ get_or-set_other (set marks 1 head) 2 1 ll_size 0 (λ e. omega arith)
      ∙ get_or-set_self marks 1 head 0 (omega (arith, length-marks))

  pub chunked-size : chunked.i_size ≡ i.i_size
  unfolding set_list switch_inode_to_chunked
  chunked-size = refl
