-- ===== src/Convert/Pixel/Range.antt =====
-- The values of the pixel arithmetic: no wrap is left in the results.
use exynos.Common.{◌+◌, ◌-◌, ◌*◌, ◌/◌, ◌≤◌, ◌<◌, ◌≡◌, arith}
use exynos.Convert.Pixel.{Rgb, luma, chroma_u, chroma_v}

-- Each component is a byte.
pub record IsRgb (p : Rgb) : Type 0 where
  pub red : p.r < 256
  pub green : p.g < 256
  pub blue : p.b < 256

-- Y is the weighted mean, rounded, and lies in the range of video levels.
pub luma_lem :
    (p : Rgb)
    → IsRgb p
    → (luma p ≡ (66 * p.r + 129 * p.g + 25 * p.b + 128) / 256 + 16) × (16 ≤ luma p) × (luma p ≤ 235)
unfolding luma
luma_lem p h = omega arith

-- The wrapped differences stand for the exact ones: U and V are the differences, rounded, about the
-- level 128, which 32768 stands for before the division; both lie in the range of video levels.
pub chroma_lem :
    (p : Rgb)
    → IsRgb p
    → (chroma_u p ≡ (32768 + 112 * p.b + 128 - (38 * p.r + 74 * p.g)) / 256)
      × (chroma_v p ≡ (32768 + 112 * p.r + 128 - (94 * p.g + 18 * p.b)) / 256)
      × (16 ≤ chroma_u p)
      × (chroma_u p ≤ 240)
      × (16 ≤ chroma_v p)
      × (chroma_v p ≤ 240)
unfolding chroma_u chroma_v
chroma_lem p h = omega arith
