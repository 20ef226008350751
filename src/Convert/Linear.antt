-- ===== src/Convert/Linear.antt =====
-- The conversions of swconvertor.c from a tiled plane to a linear one.
use exynos.Common.{ℕ, zero, suc, ◌+◌, ◌-◌, ◌*◌, ◌/◌, ◌==◌, if◌then◌else◌, ◌<<<◌, ◌>>>◌}
use exynos.Convert.Plane.{Plane, memcpy, csc_deinterleave_memcpy}

-- `n & ~(k - 1)` for a power of two `k`, and `((width + 15) >> 4) << 4`.
abbrev pub round_down : ℕ → ℕ → ℕ
round_down k n = n / k * k

abbrev pub tiled_width : ℕ → ℕ
tiled_width width = ((width + 15) >>> 4) <<< 4

-- The three functions have one shape. `copy d s n` brings `n` bytes from place `s` of the source to
-- place `d` of the target; a row of the target has `stride` bytes, and column `j` of the image stands
-- at `column j` of it; a tile has `2 ^ shift` rows of 16 bytes.
module _ {D : Type 0} (copy : D → ℕ → ℕ → ℕ → D) (stride : ℕ) where
  -- The loops over `k`: `n` rows of `len` bytes each.
  unfoldable pub copy_rows : ℕ → D → ℕ → ℕ → ℕ → D
  copy_rows len dst zero d s = dst
  copy_rows len dst (suc n) d s = copy_rows len (copy dst d s len) n (d + stride) (s + 16)

module _ {D : Type 0} (copy : D → ℕ → ℕ → ℕ → D) (stride shift : ℕ) (column : ℕ → ℕ)
    (width : ℕ) where
  -- `rows` rows of the tile at row `i` and column `j`, `len` bytes wide.
  abbrev pub copy_tile : ℕ → ℕ → ℕ → D → ℕ → D
  copy_tile rows i len dst j =
      copy_rows copy stride len dst rows (stride * i + column j)
        (tiled_width width * i + (j <<< shift))

  -- `for (j = 0; j < aligned_width; j = j + 16)`, `n` tiles left.
  unfoldable pub copy_tiles : ℕ → ℕ → D → ℕ → ℕ → D
  unfolding copy_rows
  copy_tiles rows i dst zero j = dst
  copy_tiles rows i dst (suc n) j = copy_tiles rows i (copy_tile rows i 16 dst j) n (j + 16)

  -- The tiles of a row of tiles, the last of which may be cut off.
  unfoldable pub copy_band : ℕ → ℕ → D → D
  unfolding copy_tiles
  copy_band rows i dst =
      let dst' = copy_tiles rows i dst (width / 16) 0 in
      if round_down 16 width == width
      then dst'
      else copy_tile rows i (width - round_down 16 width) dst' (round_down 16 width)

  -- `for (i = 0; i < aligned_height; i = i + tile_height)`, `n` rows of tiles left.
  unfoldable pub copy_bands : ℕ → D → ℕ → ℕ → D
  unfolding copy_band
  copy_bands tile_height dst zero i = dst
  copy_bands tile_height dst (suc n) i =
      copy_bands tile_height (copy_band tile_height i dst) n (i + tile_height)

  -- All whole rows of tiles, and the last one if it is cut off: `last` rows of it.
  unfoldable pub detile : ℕ → ℕ → ℕ → D → D
  unfolding copy_bands
  detile tile_height last height dst =
      let dst' = copy_bands tile_height dst (height / tile_height) 0 in
      if round_down tile_height height == height
      then dst'
      else copy_band last (round_down tile_height height) dst'

abbrev pub from_plane : Plane → Plane → ℕ → ℕ → ℕ → Plane
from_plane src dst d s n = memcpy dst d src s n

-- The rows of the last tiles are copied two at a time: `for (k = 0; k < height - aligned_height; k = k + 2)`.
unfoldable pub csc_tiled_to_linear_y : Plane → Plane → ℕ → ℕ → Plane
unfolding detile memcpy
csc_tiled_to_linear_y y_dst y_src width height =
    detile (from_plane y_src) width 4 (λ j. j) width 16
      ((height - round_down 16 height + 1) / 2 * 2) height y_dst

unfoldable pub csc_tiled_to_linear_uv : Plane → Plane → ℕ → ℕ → Plane
unfolding detile memcpy
csc_tiled_to_linear_uv uv_dst uv_src width height =
    detile (from_plane uv_src) width 3 (λ j. j) width 8 (height - round_down 8 height) height uv_dst

abbrev pub from_pairs : Plane → Plane × Plane → ℕ → ℕ → ℕ → Plane × Plane
from_pairs src (u, v) d s n = csc_deinterleave_memcpy u d v d src s n

unfoldable pub csc_tiled_to_linear_uv_deinterleave : Plane → Plane → Plane → ℕ → ℕ → Plane × Plane
unfolding detile csc_deinterleave_memcpy
csc_tiled_to_linear_uv_deinterleave u_dst v_dst uv_src width height =
    detile (from_pairs uv_src) (width >>> 1) 3 (λ j. j >>> 1) width 8 (height - round_down 8 height)
      height (u_dst, v_dst)

-- csc_linear_to_tiled_y and csc_linear_to_tiled_uv have empty bodies.
unfoldable pub csc_linear_to_tiled_y : Plane → Plane → ℕ → ℕ → Plane
csc_linear_to_tiled_y y_dst y_src width height = y_dst

unfoldable pub csc_linear_to_tiled_uv : Plane → Plane → Plane → ℕ → ℕ → Plane
csc_linear_to_tiled_uv uv_dst u_src v_src width height = uv_dst
