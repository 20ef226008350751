-- ===== src/Convert/Image.antt =====
-- The RGB conversions of swconvertor.c. `pixels` is the source as the code reads it, through a pointer
-- to its words of 16 or 32 bits.
pub mod Counts
pub mod Luma
pub mod Agree
use exynos.Common.{ℕ, zero, suc, ◌+◌, ◌*◌, ◌%◌, Bool, true, false, ◌&&◌, ◌==◌, if◌then◌else◌}
use exynos.Convert.Plane.{Plane, store}
use exynos.Convert.Pixel.{Rgb, rgb_of_565, rgb_of_565_sp, rgb_of_8888, luma, chroma_u, chroma_v}

-- `pDstY`, `pDstU` and `pDstV` with their indices. The U and V indices of the planar formats are equal
-- at all times; both are kept, as in the code.
pub record Planar : Type 0 where
  pub y : Plane
  pub u : Plane
  pub v : Plane
  pub y_index : ℕ
  pub u_index : ℕ
  pub v_index : ℕ

-- `pDstY` and `pDstUV` with their indices.
pub record Semi : Type 0 where
  pub y : Plane
  pub uv : Plane
  pub y_index : ℕ
  pub uv_index : ℕ

-- `(j % 2) == 0 && (i % 2) == 0`
abbrev pub is_sampled : ℕ → ℕ → Bool
is_sampled j i = j % 2 == 0 && i % 2 == 0

-- The body of the loops for a planar target, at row `j` and column `i`.
unfoldable pub planar_pixel : Rgb → ℕ → ℕ → Planar → Planar
planar_pixel p j i t =
    let t1 : Planar = record t { y = store t.y t.y_index (luma p); y_index = t.y_index + 1 } in
    if is_sampled j i
    then record t1 {
      u = store t.u t.u_index (chroma_u p);
      v = store t.v t.v_index (chroma_v p);
      u_index = t.u_index + 1;
      v_index = t.v_index + 1;
    }
    else t1

-- The body for a target with U and V in one plane.
unfoldable pub semi_pixel : Rgb → ℕ → ℕ → Semi → Semi
semi_pixel p j i t =
    let t1 : Semi = record t { y = store t.y t.y_index (luma p); y_index = t.y_index + 1 } in
    if is_sampled j i
    then record t1 {
      uv = store (store t.uv t.uv_index (chroma_u p)) (t.uv_index + 1) (chroma_v p);
      uv_index = t.uv_index + 2;
    }
    else t1

-- `for (j = …; j < height; j++) for (i = …; i < width; i++)` over a body that is given the pixel.
module _ {T : Type 0} (body : ℕ → ℕ → ℕ → T → T) (pixels : ℕ → ℕ) (width : ℕ) where
  unfoldable pub columns : ℕ → ℕ → ℕ → T → T
  columns j zero i t = t
  columns j (suc n) i t = columns j n (i + 1) (body (pixels (j * width + i)) j i t)

  unfoldable pub rows : ℕ → ℕ → T → T
  unfolding columns
  rows zero j t = t
  rows (suc n) j t = rows n (j + 1) (columns j width 0 t)

abbrev pub planar_start : Plane → Plane → Plane → Planar
planar_start y u v = record { y = y; u = u; v = v; y_index = 0; u_index = 0; v_index = 0 }

abbrev pub semi_start : Plane → Plane → Semi
semi_start y uv = record { y = y; uv = uv; y_index = 0; uv_index = 0 }

unfoldable pub csc_rgb565_to_yuv420p : Plane → Plane → Plane → (ℕ → ℕ) → ℕ → ℕ → Planar
unfolding rows planar_pixel
csc_rgb565_to_yuv420p y u v rgb_src width height =
    rows (λ tmp. planar_pixel (rgb_of_565 tmp)) rgb_src width height 0 (planar_start y u v)

unfoldable pub csc_rgb565_to_yuv420sp : Plane → Plane → (ℕ → ℕ) → ℕ → ℕ → Semi
unfolding rows semi_pixel
csc_rgb565_to_yuv420sp y uv rgb_src width height =
    rows (λ tmp. semi_pixel (rgb_of_565_sp tmp)) rgb_src width height 0 (semi_start y uv)

unfoldable pub csc_argb8888_to_yuv420p : Plane → Plane → Plane → (ℕ → ℕ) → ℕ → ℕ → Planar
unfolding rows planar_pixel
csc_argb8888_to_yuv420p y u v rgb_src width height =
    rows (λ tmp. planar_pixel (rgb_of_8888 tmp)) rgb_src width height 0 (planar_start y u v)

unfoldable pub csc_argb8888_to_yuv420sp : Plane → Plane → (ℕ → ℕ) → ℕ → ℕ → Semi
unfolding rows semi_pixel
csc_argb8888_to_yuv420sp y uv rgb_src width height =
    rows (λ tmp. semi_pixel (rgb_of_8888 tmp)) rgb_src width height 0 (semi_start y uv)
