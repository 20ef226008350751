-- ===== src/Convert/Tiled420.antt =====
-- Tile2D_To_YUV420 of swconvertor.c. A 32-bit word is read from memory and taken apart: the bytes are
-- in little-endian order.
use exynos.Common.{
  ℕ, zero, suc, ◌+◌, ◌-◌, ◌*◌, ◌/◌, ◌%◌, ◌^◌, true, false, ◌==◌, ltb, if◌then◌else◌,
}
use exynos.Convert.Plane.{Plane, store}
use exynos.Convert.Tile.{tile2d_to_linear}

-- `actual_width`: the words in a row of the tile at column `x`.
unfoldable pub actual_width : ℕ → ℕ → ℕ
actual_width width x =
    if ltb width (x + 16) then if width % 4 == 0 then width % 16 / 4 else width % 16 / 4 + 1 else 4

-- `*((unsigned int*)(addr))`
abbrev pub word_at : Plane → ℕ → ℕ
word_at m a = m a + m (a + 1) * 2 ^ 8 + m (a + 2) * 2 ^ 16 + m (a + 3) * 2 ^ 24

-- `(data >> (8 * j)) & 0xff`
abbrev pub byte_of : ℕ → ℕ → ℕ
byte_of word j = word / 2 ^ (8 * j) % 2 ^ 8

-- The loop over `j`: up to four pixels, from column `x` of row `row`.
unfoldable pub put_pixels : ℕ → ℕ → ℕ → ℕ → Plane → ℕ → ℕ → Plane
put_pixels width row word x y_plane zero j = y_plane
put_pixels width row word x y_plane (suc n) j =
    if ltb (x + j) width
    then put_pixels width row word x (store y_plane (row * width + x + j) (byte_of word j)) n
        (j + 1)
    else y_plane

-- The loop over `l`: the words of a row.
unfoldable pub put_words : Plane → ℕ → ℕ → ℕ → ℕ → Plane → ℕ → ℕ → Plane
unfolding put_pixels
put_words mem width row base x y_plane zero l = y_plane
put_words mem width row base x y_plane (suc n) l =
    put_words mem width row base x
      (put_pixels width row (word_at mem (base + l * 4)) (x + l * 4) y_plane 4 0) n (l + 1)

-- The loop over `k`: up to 16 rows of the tile at row `y` and column `x`, whose bytes begin at `base`.
unfoldable pub put_rows : Plane → ℕ → ℕ → ℕ → ℕ → ℕ → Plane → ℕ → ℕ → Plane
unfolding put_words
put_rows mem width height base x y y_plane zero k = y_plane
put_rows mem width height base x y y_plane (suc n) k =
    if ltb (y + k) height
    then put_rows mem width height base x y
        (put_words mem width (y + k) (base + 16 * k) x y_plane (actual_width width x) 0) n (k + 1)
    else y_plane

-- The loop over `x`, and the loop over `y`; `n` rounds left.
unfoldable pub put_tiles : Plane → ℕ → ℕ → ℕ → ℕ → Plane → ℕ → ℕ → Plane
unfolding put_rows actual_width
put_tiles mem y_addr width height y y_plane zero x = y_plane
put_tiles mem y_addr width height y y_plane (suc n) x =
    put_tiles mem y_addr width height y
      (put_rows mem width height (y_addr + tile2d_to_linear width height x y false) x y y_plane 16
        0)
      n (x + 16)

-- The number of tiles of `size` that cover `n`.
abbrev pub tiles_over : ℕ → ℕ → ℕ
tiles_over size n = (n + (size - 1)) / size

unfoldable pub put_bands : Plane → ℕ → ℕ → ℕ → Plane → ℕ → ℕ → Plane
unfolding put_tiles
put_bands mem y_addr width height y_plane zero y = y_plane
put_bands mem y_addr width height y_plane (suc n) y =
    put_bands mem y_addr width height
      (put_tiles mem y_addr width height y y_plane (tiles_over 16 width) 0) n (y + 16)

-- The same loops for the chroma planes, a pair of planes; a word holds two pixels of each.
unfoldable pub put_chroma : ℕ → ℕ → ℕ → ℕ → Plane × Plane → ℕ → ℕ → Plane × Plane
put_chroma width row word c planes zero j = planes
put_chroma width row word c (cb, cr) (suc n) j =
    if ltb (c + j) (width / 2)
    then put_chroma width row word c
        (
          store cb (row * width / 2 + c + j) (byte_of word (2 * j)),
          store cr (row * width / 2 + c + j) (byte_of word (2 * j + 1)),
        )
        n (j + 1)
    else (cb, cr)

unfoldable pub chroma_words : Plane → ℕ → ℕ → ℕ → ℕ → Plane × Plane → ℕ → ℕ → Plane × Plane
unfolding put_chroma
chroma_words mem width row base x planes zero l = planes
chroma_words mem width row base x planes (suc n) l =
    chroma_words mem width row base x
      (put_chroma width row (word_at mem (base + l * 4)) (x / 2 + l * 2) planes 2 0) n (l + 1)

unfoldable pub chroma_rows : Plane → ℕ → ℕ → ℕ → ℕ → ℕ → Plane × Plane → ℕ → ℕ → Plane × Plane
unfolding chroma_words
chroma_rows mem width height base x y planes zero k = planes
chroma_rows mem width height base x y planes (suc n) k =
    if ltb (y + k) (height / 2)
    then chroma_rows mem width height base x y
        (chroma_words mem width (y + k) (base + 16 * k) x planes (actual_width width x) 0) n (k + 1)
    else planes

unfoldable pub chroma_tiles : Plane → ℕ → ℕ → ℕ → ℕ → Plane × Plane → ℕ → ℕ → Plane × Plane
unfolding chroma_rows actual_width
chroma_tiles mem c_addr width height y planes zero x = planes
chroma_tiles mem c_addr width height y planes (suc n) x =
    chroma_tiles mem c_addr width height y
      (chroma_rows mem width height (c_addr + tile2d_to_linear width (height / 2) x y true) x y
        planes 8 0)
      n (x + 16)

unfoldable pub chroma_bands : Plane → ℕ → ℕ → ℕ → Plane × Plane → ℕ → ℕ → Plane × Plane
unfolding chroma_tiles
chroma_bands mem c_addr width height planes zero y = planes
chroma_bands mem c_addr width height planes (suc n) y =
    chroma_bands mem c_addr width height
      (chroma_tiles mem c_addr width height y planes (tiles_over 16 width) 0) n (y + 8)

-- The three planes of the result.
unfoldable pub tile2d_to_yuv420 :
    Plane → Plane → Plane → Plane → ℕ → ℕ → ℕ → ℕ → Plane × (Plane × Plane)
unfolding put_bands chroma_bands
tile2d_to_yuv420 mem y_plane cb_plane cr_plane y_addr c_addr width height = (
  put_bands mem y_addr width height y_plane (tiles_over 16 height) 0,
  chroma_bands mem c_addr width height (cb_plane, cr_plane) (tiles_over 8 (height / 2)) 0,
)
