-- ===== src/Convert/Tile.antt =====
-- Tile2D_To_Linear of swconvertor.c: the address of a pixel in a plane of 16 by 16 tiles, or 16 by 8.
pub mod Address
use exynos.Common.{ℕ, ◌+◌, ◌*◌, ◌/◌, bit_and, bit_or, Bool, true, false, ◌<<<◌, u32}

-- `width = ((width + 15) / 16) * 16`
unfoldable pub aligned : ℕ → ℕ
aligned width = u32 (width + 15) / 16 * 16

-- The tile number and its shift are 32-bit words; `cr` is `crFlag`: false for the Y plane, true for the CbCr plane.
unfoldable pub tile2d_to_linear : ℕ → ℕ → ℕ → ℕ → Bool → ℕ
unfolding aligned
tile2d_to_linear width height xpos ypos false =
    bit_or (u32 (u32 (ypos / 16 * (aligned width / 16) + xpos / 16) <<< 8))
      (bit_and ypos 15 * 16 + bit_and xpos 15)
tile2d_to_linear width height xpos ypos true =
    bit_or (u32 (u32 (ypos / 8 * (aligned width / 16) + xpos / 16) <<< 7))
      (bit_and ypos 7 * 16 + bit_and xpos 15)
