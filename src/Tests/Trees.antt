-- ===== src/Tests/Trees.antt =====
-- Block pointers of small files.
use cominix_fs.Fs.{Fs, ok}
use cominix_fs.Itree.{pos, block_to_path}
use cominix_fs.Itree.Common.{get_block}
use cominix_fs.Itree.FreeData.{InData, CutOff}
use cominix_fs.Itree.Direct.{truncate-CutOff}
use cominix_fs.Itree.Lookup.{walk, answer, get_block-walk}
use cominix_fs.Itree.Truncate.{truncate}
use cominix_fs.Prelude.{
  ℕ, zero, suc, ◌+◌, ◌-◌, ◌≡◌, refl, inl, inr, true, false, ◌&&◌, List, [], ◌∷◌, arith, ◌==◌,
  if◌then◌else◌,
}
use cominix_fs.Tests.{small_fs}
use cominix_fs.Tests.Bits.{bit_ops}
use cominix_fs.Tests.Zones.{small_ZmapOk}

-- Zone 2 is a block of pointers, the first of which leads to zone 3.
abbrev pointers : Fs
pointers = record small_fs { disk = λ b o. if b == 2 && o == 0 then 3 else 0 }

abbrev indirect_data : List ℕ
indirect_data = 0 ∷ 0 ∷ 0 ∷ 0 ∷ 0 ∷ 0 ∷ 0 ∷ 2 ∷ 0 ∷ 0 ∷ []

block_7 : block_to_path 9 65536 (pos 7) ≡ 7 ∷ 0 ∷ []
unfolding block_to_path
block_7 = refl

get_block-walk_example :
    get_block bit_ops (λ b. true) (0 + 1) 65536 (pos 7) false indirect_data pointers
    ≡ ok (answer indirect_data (walk pointers 2 (0 ∷ []))) pointers
get_block-walk_example =
    get_block-walk pointers indirect_data bit_ops (λ b. true) 0 65536 (pos 7) 7 (0 ∷ []) block_7
      (omega arith) (omega arith, tt) (λ e. omega arith) (λ e. omega arith)

-- the zones 2 and 3
abbrev direct_data : List ℕ
direct_data = 2 ∷ 3 ∷ 0 ∷ 0 ∷ 0 ∷ 0 ∷ 0 ∷ 0 ∷ 0 ∷ 0 ∷ []

direct-InData : InData small_fs direct_data
direct-InData zero = inr (omega arith, omega arith)
direct-InData (suc zero) = inr (omega arith, omega arith)
direct-InData (suc (suc zero)) = inl refl
direct-InData (suc (suc (suc zero))) = inl refl
direct-InData (suc (suc (suc (suc zero)))) = inl refl
direct-InData (suc (suc (suc (suc (suc zero))))) = inl refl
direct-InData (suc (suc (suc (suc (suc (suc zero)))))) = inl refl
direct-InData (suc (suc (suc (suc (suc (suc (suc zero))))))) = inl refl
direct-InData (suc (suc (suc (suc (suc (suc (suc (suc zero)))))))) = inl refl
direct-InData (suc (suc (suc (suc (suc (suc (suc (suc (suc zero))))))))) = inl refl
direct-InData (suc (suc (suc (suc (suc (suc (suc (suc (suc (suc j)))))))))) = inl refl

truncate-CutOff_example :
    (data' : List ℕ) × (s' : Fs) × (truncate bit_ops (λ n s. ok tt s) 65536 512 direct_data small_fs
      ≡ ok data' s')
    × CutOff small_fs direct_data (7 - 1) 1 data' s'
truncate-CutOff_example =
    truncate-CutOff bit_ops small_fs (λ n s. ok tt s) 65536 512 direct_data 1 small_ZmapOk
      (λ n. refl) refl (omega arith) (omega arith) (omega arith) (omega arith) direct-InData refl
      refl refl
