-- ===== src/Edid/Blocks/Encoding.antt =====
-- A data block collection as a list of blocks, and its bytes in an extension.
use exynos.Common.{ℕ, ◌+◌, ◌*◌, ◌≤◌, ◌<◌, ◌≡◌, List, [], ◌∷◌, ◌++◌, length, get_or, All, some}
use exynos.Edid.State.{State, block_size}
use exynos.Edid.Blocks.{Step, next, ret}

-- A block: the three bits of its tag, and the bytes behind its header.
pub record DataBlock : Type 0 where
  pub tag : ℕ
  pub payload : List ℕ

pub record IsDataBlock (b : DataBlock) : Type 0 where
  pub tag_fits : b.tag < 8
  pub payload_fits : length b.payload < 32
  pub small : All (λ x. x < 256) b.payload

abbrev pub header : DataBlock → ℕ
header b = b.tag * 32 + length b.payload

abbrev pub encode : List DataBlock → List ℕ
encode [] = []
encode (b ∷ bs) = header b ∷ (b.payload ++ encode bs)

-- What a loop does over the blocks, each with its offset: it goes on, or it returns.
abbrev pub walk :
    {S A : Type 0} → (ℕ → DataBlock → S → Step S A) → ℕ → List DataBlock → S → Step S A
walk g offset [] x = next x
walk g offset (b ∷ bs) x = elim (g offset b x) [
  | ret a ↦ ret a
  | next y ↦ walk g (offset + (length b.payload + 1)) bs y
]

-- The extension's data block collection is `bs`, and at least three bytes of the buffer follow it:
-- the descriptors and the checksum of the block.
pub record Layout (s : State) (extension : ℕ) (bs : List DataBlock) : Type 0 where
  pub before : List ℕ
  pub after : List ℕ
  pub bytes_eq : s.bytes ≡ some (before ++ (encode bs ++ after))
  pub before_size : length before ≡ extension * block_size + 4
  pub dtd : get_or before (extension * block_size + 2) 0 ≡ 4 + length (encode bs)
  pub short : length (encode bs) < 252
  pub room : 3 ≤ length after
  pub blocks : All IsDataBlock bs
