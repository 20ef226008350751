-- ===== src/Convert/Image/Counts.antt =====
-- How many bytes the RGB conversions write.
use exynos.Common.{
  ℕ, zero, suc, ◌+◌, ◌-◌, ◌*◌, ◌/◌, ◌%◌, ◌≡◌, ◌∙◌, ◌==◌, if◌then◌else◌, arith, Bool-cases, inl, inr,
  ==→eq,
}
use exynos.Convert.Plane.{Plane}
use exynos.Convert.Pixel.{Rgb, rgb_of_565, rgb_of_8888}
use exynos.Convert.Image.{
  Planar, csc_argb8888_to_yuv420p, planar_pixel, planar_start, columns, rows, csc_rgb565_to_yuv420p,
}

-- The indices after a number of pixels.
pub record At (y u v : ℕ) (t : Planar) : Type 0 where
  pub y_at : t.y_index ≡ y
  pub u_at : t.u_index ≡ u
  pub v_at : t.v_index ≡ v

-- The samples in columns `i` to `i + n` of row `j`: every second column of every second row.
abbrev sampled : ℕ → ℕ → ℕ → ℕ
sampled j i n = if j % 2 == 0 then (i + n + 1) / 2 - (i + 1) / 2 else 0

planar_pixel-At :
    (p : Rgb) (j i y c : ℕ) (t : Planar)
    → At y c c t
    → At (y + 1) (c + sampled j i 1) (c + sampled j i 1) (planar_pixel p j i t)
unfolding planar_pixel
planar_pixel-At p j i y c t h = ground arith

-- Every second one of the rows `j` to `j + n`.
abbrev sampled_rows : ℕ → ℕ → ℕ
sampled_rows j n = (j + n + 1) / 2 - (j + 1) / 2

At-of_eq : {y c y' c' : ℕ} {t : Planar} → At y c c t → y ≡ y' → c ≡ c' → At y' c' c' t
At-of_eq h p q = record { y_at = h.y_at ∙ p; u_at = h.u_at ∙ q; v_at = h.v_at ∙ q }

rows_count :
    (j n width c : ℕ)
    → c + sampled j 0 width + sampled_rows (j + 1) n * ((width + 1) / 2)
      ≡ c + sampled_rows j (suc n) * ((width + 1) / 2)
rows_count j n width c = elim (Bool-cases (j % 2 == 0)) [
  | inl even ↦
      let e : sampled_rows j (suc n) ≡ sampled_rows (j + 1) n + 1 =
        omega (arith, ==→eq (j % 2) 0 even) in
      rw (even, e) (omega arith)
  | inr odd ↦
      let e : sampled_rows j (suc n) ≡ sampled_rows (j + 1) n = ground (arith, odd) in
      rw (odd, e) (omega arith)
]

module _ (rgb : ℕ → Rgb) (pixels : ℕ → ℕ) (width : ℕ) where
  columns-At :
      (j n i y c : ℕ) (t : Planar)
      → At y c c t
      → At
          (y + n)
          (c + sampled j i n)
          (c + sampled j i n)
          (columns (λ tmp. planar_pixel (rgb tmp)) pixels width j n i t)
  unfolding columns
  columns-At j zero i y c t h = ground arith
  columns-At j (suc n) i y c t h = ground (
    arith,
    columns-At j n (i + 1) (y + 1) (c + sampled j i 1)
        (planar_pixel (rgb (pixels (j * width + i))) j i t)
        (planar_pixel-At (rgb (pixels (j * width + i))) j i y c t h),
  )

  rows-At :
      (n j y c : ℕ) (t : Planar)
      → At y c c t
      → At
          (y + n * width)
          (c + sampled_rows j n * ((width + 1) / 2))
          (c + sampled_rows j n * ((width + 1) / 2))
          (rows (λ tmp. planar_pixel (rgb tmp)) pixels width n j t)
  unfolding rows
  rows-At zero j y c t h = ground arith
  rows-At (suc n) j y c t h =
      At-of_eq
        (rows-At n (j + 1) (y + width) (c + sampled j 0 width)
          (columns (λ tmp. planar_pixel (rgb tmp)) pixels width j width 0 t)
          (columns-At j width 0 y c t h))
        (omega arith) (rows_count j n width c)

planar_counts :
    (rgb : ℕ → Rgb) (pixels : ℕ → ℕ) (y u v : Plane) (width height : ℕ)
    → At
        (height * width)
        ((height + 1) / 2 * ((width + 1) / 2))
        ((height + 1) / 2 * ((width + 1) / 2))
        (rows (λ tmp. planar_pixel (rgb tmp)) pixels width height 0 (planar_start y u v))
planar_counts rgb pixels y u v width height =
    At-of_eq (rows-At rgb pixels width height 0 0 0 (planar_start y u v) (omega arith))
      (omega arith) (rw (all_rows height) (omega arith))
  where
    all_rows : (height : ℕ) → sampled_rows 0 height ≡ (height + 1) / 2
    all_rows height = omega arith

-- The planar conversions write one byte of Y for each pixel, and one byte of U and of V for each two by two
-- pixels, those at the edges of an odd width or height included.
pub conversions-counts :
    (pixels : ℕ → ℕ) (y u v : Plane) (width height : ℕ)
    → let c = (height + 1) / 2 * ((width + 1) / 2) in
      At (height * width) c c (csc_rgb565_to_yuv420p y u v pixels width height)
      × At (height * width) c c (csc_argb8888_to_yuv420p y u v pixels width height)
unfolding csc_rgb565_to_yuv420p csc_argb8888_to_yuv420p
conversions-counts pixels y u v width height = (
  planar_counts rgb_of_565 pixels y u v width height,
  planar_counts rgb_of_8888 pixels y u v width height,
)
