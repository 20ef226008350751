-- ===== src/Convert/Pixel.antt =====
-- The pixel arithmetic of the RGB conversions of swconvertor.c, in `unsigned int`.
pub mod Range
use exynos.Common.{ℕ, ◌+◌, ◌-◌, ◌*◌, ◌/◌, ◌%◌, ◌^◌, bit_and, ◌<<<◌, ◌>>>◌, u8, u32}

pub record Rgb : Type 0 where
  pub r : ℕ
  pub g : ℕ
  pub b : ℕ

-- `a - b` on `unsigned int`.
abbrev pub sub32 : ℕ → ℕ → ℕ
sub32 a b = u32 (a + 2 ^ 32 - b)

-- The fields of an RGB565 pixel as csc_RGB565_to_YUV420P takes them.
unfoldable pub rgb_of_565 : ℕ → Rgb
rgb_of_565 tmp = record {
  r = bit_and tmp 0xf800 >>> 8;
  g = bit_and tmp 0x07e0 >>> 3;
  b = bit_and tmp 0x001f <<< 3;
}

-- The fields as csc_RGB565_to_YUV420SP takes them.
unfoldable pub rgb_of_565_sp : ℕ → Rgb
rgb_of_565_sp tmp = record {
  r = (bit_and tmp 0xf800 >>> 11) * 8;
  g = (bit_and tmp 0x07e0 >>> 5) * 4;
  b = bit_and tmp 0x001f * 8;
}

-- The fields of an ARGB8888 pixel.
unfoldable pub rgb_of_8888 : ℕ → Rgb
rgb_of_8888 tmp = record {
  r = bit_and tmp 0x00ff0000 >>> 16;
  g = bit_and tmp 0x0000ff00 >>> 8;
  b = bit_and tmp 0x000000ff;
}

-- The byte stored for Y: `((66 * R) + (129 * G) + (25 * B) + 128) >> 8`, and 16.
unfoldable pub luma : Rgb → ℕ
luma p = u8 (u32 (66 * p.r + 129 * p.g + 25 * p.b + 128) >>> 8 + 16)

-- The byte stored for U. `-38 * R` is converted to `unsigned int` and wraps.
unfoldable pub chroma_u : Rgb → ℕ
chroma_u p = u8 (u32 (sub32 (u32 ((2 ^ 32 - 38) * p.r)) (74 * p.g) + 112 * p.b + 128) >>> 8 + 128)

-- The byte stored for V.
unfoldable pub chroma_v : Rgb → ℕ
chroma_v p = u8 (u32 (sub32 (sub32 (112 * p.r) (94 * p.g)) (18 * p.b) + 128) >>> 8 + 128)
