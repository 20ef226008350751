-- ===== src/Convert/Tests.antt =====
-- The conversions on small images.
use exynos.Common.{ℕ, ◌+◌, ◌-◌, ◌*◌, ◌/◌, ◌≤◌, ◌≡◌, refl, false, arith}
use exynos.Convert.Plane.{Plane, csc_deinterleave_memcpy, csc_interleave_memcpy}
use exynos.Convert.Plane.Shuffle.{deinterleave-interleave}
use exynos.Convert.Tile.{aligned, tile2d_to_linear}
use exynos.Convert.Tile.Address.{tile2d_to_linear-injective}
use exynos.Convert.Pixel.{Rgb, luma, chroma_u, chroma_v, rgb_of_565, rgb_of_565_sp, rgb_of_8888}
use exynos.Convert.Pixel.Range.{IsRgb, chroma_lem}
use exynos.Convert.Image.{
  csc_rgb565_to_yuv420p, csc_rgb565_to_yuv420sp, csc_argb8888_to_yuv420p, csc_argb8888_to_yuv420sp,
}
use exynos.Convert.Image.Luma.{conversions-luma}

-- A plane whose bytes are numbered, and one of zeros.
abbrev numbered : Plane
numbered q = q

abbrev zeros : Plane
zeros q = 0

abbrev orange : Rgb
orange = record { r = 255; g = 128; b = 0 }

orange-IsRgb : IsRgb orange
orange-IsRgb = record { red = omega arith; green = omega arith; blue = omega arith }

orange_test : (luma orange ≡ 146) × (chroma_u orange ≡ 53) × (chroma_v orange ≡ 193)
unfolding luma chroma_u chroma_v
orange_test = (refl, refl, refl)

chroma_lem_example :
    (chroma_u orange ≡ (32768 + 112 * 0 + 128 - (38 * 255 + 74 * 128)) / 256)
    × (chroma_v orange ≡ (32768 + 112 * 255 + 128 - (94 * 128 + 18 * 0)) / 256)
    × (16 ≤ chroma_u orange)
    × (chroma_u orange ≤ 240)
    × (16 ≤ chroma_v orange)
    × (chroma_v orange ≤ 240)
chroma_lem_example = chroma_lem orange orange-IsRgb

tile2d_to_linear_test : tile2d_to_linear 100 32 50 17 false ≡ 10 * 256 + 18
unfolding tile2d_to_linear
tile2d_to_linear_test = refl

tile2d_to_linear-injective_example : (◌≡◌ {A = ℕ} 50 50) × (◌≡◌ {A = ℕ} 17 17)
unfolding aligned
tile2d_to_linear-injective_example =
    tile2d_to_linear-injective 100 32 false (omega arith) (omega arith) 50 17 50 17 (omega arith)
      (omega arith) (omega arith) (omega arith) refl

deinterleave-interleave_example :
    ((csc_deinterleave_memcpy zeros 0 zeros 0
          (csc_interleave_memcpy zeros numbered zeros 4)
          0
          (4 * 2)).0
        3
      ≡ 3)
    × ((csc_deinterleave_memcpy zeros 0 zeros 0
            (csc_interleave_memcpy zeros numbered zeros 4)
            0
            (4 * 2)).1
          3
        ≡ 0)
deinterleave-interleave_example =
    deinterleave-interleave zeros numbered zeros zeros zeros 4 3 (omega arith)

conversions-luma_example :
    ((csc_rgb565_to_yuv420p zeros zeros zeros numbered 4 2).y 5 ≡ luma (rgb_of_565 5))
    × ((csc_rgb565_to_yuv420sp zeros zeros numbered 4 2).y 5 ≡ luma (rgb_of_565_sp 5))
    × ((csc_argb8888_to_yuv420p zeros zeros zeros numbered 4 2).y 5 ≡ luma (rgb_of_8888 5))
    × ((csc_argb8888_to_yuv420sp zeros zeros numbered 4 2).y 5 ≡ luma (rgb_of_8888 5))
conversions-luma_example = conversions-luma zeros zeros zeros zeros numbered 4 2 5
