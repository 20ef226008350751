-- ===== src/Convert/Image/Agree.antt =====
-- The two RGB565 conversions take the same colours from a pixel.
use exynos.Common.{
  ℕ, ◌*◌, ◌/◌, ◌^◌, ◌≡◌, refl, ap, ◌∙◌, sym, ltb, if◌then◌else◌, bit_and, arith, bit_and-green,
  bit_and-red,
}
use exynos.Convert.Plane.{Plane}
use exynos.Convert.Pixel.{luma, rgb_of_565, rgb_of_565_sp}
use exynos.Convert.Image.{csc_rgb565_to_yuv420p, csc_rgb565_to_yuv420sp}
use exynos.Convert.Image.Luma.{conversions-luma}

same_colours : (tmp : ℕ) → rgb_of_565 tmp ≡ rgb_of_565_sp tmp
unfolding rgb_of_565 rgb_of_565_sp
same_colours tmp = rw (red, green) refl
  where
    red : bit_and tmp 0xf800 / 2 ^ 8 ≡ bit_and tmp 0xf800 / 2 ^ 11 * 8
    red = omega (arith, bit_and-red tmp)

    green : bit_and tmp 0x07e0 / 2 ^ 3 ≡ bit_and tmp 0x07e0 / 2 ^ 5 * 4
    green = omega (arith, bit_and-green tmp)

-- csc_RGB565_to_YUV420P and csc_RGB565_to_YUV420SP, which take the fields of a pixel apart in two ways, write the
-- same Y plane.
pub conversions-agree :
    (y u v uv : Plane) (pixels : ℕ → ℕ) (width height q : ℕ)
    → (csc_rgb565_to_yuv420p y u v pixels width height).y q
      ≡ (csc_rgb565_to_yuv420sp y uv pixels width height).y q
conversions-agree y u v uv pixels width height q =
    let (p, sp, _, _) = conversions-luma y u v uv pixels width height q in
    p ∙ ap (λ c. if ltb q (height * width) then luma c else y q) (same_colours (pixels q)) ∙ sym sp
