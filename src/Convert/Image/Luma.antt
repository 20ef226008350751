-- ===== src/Convert/Image/Luma.antt =====
-- The Y plane of the RGB conversions.
use exynos.Common.{ℕ, zero, suc, ◌+◌, ◌*◌, ◌≡◌, ltb, if◌then◌else◌, arith}
use exynos.Convert.Plane.{Plane, store}
use exynos.Convert.Plane.Shuffle.{within}
use exynos.Convert.Pixel.{Rgb, luma, rgb_of_565, rgb_of_565_sp, rgb_of_8888}
use exynos.Convert.Image.{
  Planar, Semi, planar_pixel, semi_pixel, planar_start, semi_start, columns, rows,
  csc_rgb565_to_yuv420p, csc_rgb565_to_yuv420sp, csc_argb8888_to_yuv420p, csc_argb8888_to_yuv420sp,
}

-- A loop's body that stores one byte of Y at each pixel.
pub record StoresLuma {T : Type 0} (rgb : ℕ → Rgb) (plane : T → Plane) (index : T → ℕ)
    (body : ℕ → ℕ → ℕ → T → T) : Type 0 where
  pub stored :
      (tmp j i : ℕ) (t : T) (q : ℕ)
      → plane (body tmp j i t) q ≡ store (plane t) (index t) (luma (rgb tmp)) q
  pub advanced : (tmp j i : ℕ) (t : T) → index (body tmp j i t) ≡ index t + 1

module _ {T : Type 0} (rgb : ℕ → Rgb) (plane : T → Plane) (index : T → ℕ) (body : ℕ → ℕ → ℕ → T → T)
    (h : StoresLuma rgb plane index body) (pixels : ℕ → ℕ) (width : ℕ) where
  columns-index : (j n i : ℕ) (t : T) → index (columns body pixels width j n i t) ≡ index t + n
  unfolding columns
  columns-index j zero i t = omega arith
  columns-index j (suc n) i t =
      let next = body (pixels (j * width + i)) j i t in
      omega (arith, columns-index j n (i + 1) next, h.advanced (pixels (j * width + i)) j i t)

  columns-plane :
      (j n i : ℕ) (t : T) (q : ℕ)
      → index t ≡ j * width + i
      → plane (columns body pixels width j n i t) q
        ≡ (if within (j * width + i) n q then luma (rgb (pixels q)) else plane t q)
  unfolding columns
  columns-plane j zero i t q e = ground arith
  columns-plane j (suc n) i t q e =
      let next = body (pixels (j * width + i)) j i t in
      ground (
        arith,
        columns-plane j n (i + 1) next q (omega (arith, h.advanced (pixels (j * width + i)) j i t)),
        h.stored (pixels (j * width + i)) j i t q,
      )

  rows-plane :
      (n j : ℕ) (t : T) (q : ℕ)
      → index t ≡ j * width
      → plane (rows body pixels width n j t) q
        ≡ (if within (j * width) (n * width) q then luma (rgb (pixels q)) else plane t q)
  unfolding rows
  rows-plane zero j t q e = ground arith
  rows-plane (suc n) j t q e =
      let next = columns body pixels width j width 0 t in
      ground (
        arith,
        rows-plane n (j + 1) next q (omega (arith, columns-index j width 0 t)),
        columns-plane j width 0 t q (omega arith),
      )

planar_pixel-StoresLuma :
    (rgb : ℕ → Rgb)
    → StoresLuma rgb
        (λ (t : Planar). t.y)
        (λ (t : Planar). t.y_index)
        (λ tmp. planar_pixel (rgb tmp))
unfolding planar_pixel
planar_pixel-StoresLuma rgb = record {
  stored = λ tmp j i t q. ground arith;
  advanced = λ tmp j i t. ground arith;
}

semi_pixel-StoresLuma :
    (rgb : ℕ → Rgb)
    → StoresLuma rgb (λ (t : Semi). t.y) (λ (t : Semi). t.y_index) (λ tmp. semi_pixel (rgb tmp))
unfolding semi_pixel
semi_pixel-StoresLuma rgb = record {
  stored = λ tmp j i t q. ground arith;
  advanced = λ tmp j i t. ground arith;
}

-- Each RGB conversion leaves the luma of pixel `q` at place `q` of the Y plane, for the pixels of the image, and
-- changes nothing behind them.
pub conversions-luma :
    (y u v uv : Plane) (pixels : ℕ → ℕ) (width height q : ℕ)
    → let of : (ℕ → Rgb) → ℕ =
        λ rgb. if ltb q (height * width) then luma (rgb (pixels q)) else y q in
      ((csc_rgb565_to_yuv420p y u v pixels width height).y q ≡ of rgb_of_565)
      × ((csc_rgb565_to_yuv420sp y uv pixels width height).y q ≡ of rgb_of_565_sp)
      × ((csc_argb8888_to_yuv420p y u v pixels width height).y q ≡ of rgb_of_8888)
      × ((csc_argb8888_to_yuv420sp y uv pixels width height).y q ≡ of rgb_of_8888)
unfolding csc_rgb565_to_yuv420p csc_rgb565_to_yuv420sp csc_argb8888_to_yuv420p
    csc_argb8888_to_yuv420sp
conversions-luma y u v uv pixels width height q =
    (planar rgb_of_565, semi rgb_of_565_sp, planar rgb_of_8888, semi rgb_of_8888)
  where
    planar :
        (rgb : ℕ → Rgb)
        → (rows (λ tmp. planar_pixel (rgb tmp)) pixels width height 0 (planar_start y u v)).y q
          ≡ (if ltb q (height * width) then luma (rgb (pixels q)) else y q)
    planar rgb = ground (
      arith,
      rows-plane rgb (λ (t : Planar). t.y) (λ (t : Planar). t.y_index)
          (λ tmp. planar_pixel (rgb tmp)) (planar_pixel-StoresLuma rgb) pixels width height 0
          (planar_start y u v) q (omega arith),
    )

    semi :
        (rgb : ℕ → Rgb)
        → (rows (λ tmp. semi_pixel (rgb tmp)) pixels width height 0 (semi_start y uv)).y q
          ≡ (if ltb q (height * width) then luma (rgb (pixels q)) else y q)
    semi rgb = ground (
      arith,
      rows-plane rgb (λ (t : Semi). t.y) (λ (t : Semi). t.y_index) (λ tmp. semi_pixel (rgb tmp))
          (semi_pixel-StoresLuma rgb) pixels width height 0 (semi_start y uv) q (omega arith),
    )
