-- ===== src/Scaler/Format.antt =====
-- The tables of pixel formats and the size tests of exynos_gscaler.c.
use exynos.Common.{ℕ, ◌*◌, ◌/◌, Bool, not, ◌||◌, Option, none, some, ◌==◌, ltb, if◌then◌else◌, u32}

-- The `V4L2_PIX_FMT_…` that the code names; `unmatched` is any other value.
pub data PixFmt : Type 0 where
  rgb32 bgr32 rgb24 rgb565 rgb555x rgb444 yuyv uyvy : PixFmt
  nv12m nv12mt_16x16 nv12 nv21 nv21m nv16 nv61 : PixFmt
  yvu420m yuv422p yuv420m : PixFmt
  unmatched : PixFmt

-- `none` is -1.
unfoldable pub gsc_get_plane_count : PixFmt → Option ℕ
gsc_get_plane_count rgb32 = some 1
gsc_get_plane_count bgr32 = some 1
gsc_get_plane_count rgb24 = some 1
gsc_get_plane_count rgb565 = some 1
gsc_get_plane_count rgb555x = some 1
gsc_get_plane_count rgb444 = some 1
gsc_get_plane_count yuyv = some 1
gsc_get_plane_count uyvy = some 1
gsc_get_plane_count nv12m = some 2
gsc_get_plane_count nv12mt_16x16 = some 2
gsc_get_plane_count nv12 = some 2
gsc_get_plane_count nv21 = some 2
gsc_get_plane_count nv21m = some 2
gsc_get_plane_count nv16 = some 2
gsc_get_plane_count nv61 = some 2
gsc_get_plane_count yvu420m = some 3
gsc_get_plane_count yuv422p = some 3
gsc_get_plane_count yuv420m = some 3
gsc_get_plane_count unmatched = none

-- `plane_size[0]` to `plane_size[2]`.
pub record Sizes : Type 0 where
  pub size0 : ℕ
  pub size1 : ℕ
  pub size2 : ℕ

abbrev pub sizes : ℕ → ℕ → ℕ → Sizes
sizes a b c = record { size0 = u32 a; size1 = u32 b; size2 = u32 c }

-- `align` is the macro ALIGN of a header outside the repository.
unfoldable pub gsc_get_plane_size : (ℕ → ℕ → ℕ) → ℕ → ℕ → PixFmt → Option Sizes
gsc_get_plane_size align width height rgb32 = some (sizes (width * height * 4) 0 0)
gsc_get_plane_size align width height bgr32 = some (sizes (width * height * 4) 0 0)
gsc_get_plane_size align width height rgb24 = some (sizes (width * height * 3) 0 0)
gsc_get_plane_size align width height rgb565 = some (sizes (width * height * 2) 0 0)
gsc_get_plane_size align width height rgb555x = some (sizes (width * height * 2) 0 0)
gsc_get_plane_size align width height rgb444 = some (sizes (width * height * 2) 0 0)
gsc_get_plane_size align width height yuyv = some (sizes (width * height * 2) 0 0)
gsc_get_plane_size align width height uyvy = some (sizes (width * height * 2) 0 0)
gsc_get_plane_size align width height nv12m = some (sizes (width * height) (width * (height / 2)) 0)
gsc_get_plane_size align width height nv12 = some (sizes (width * height) (width * (height / 2)) 0)
gsc_get_plane_size align width height nv21 = some (sizes (width * height) (width * (height / 2)) 0)
gsc_get_plane_size align width height nv21m = some (sizes (width * height) (width * (height / 2)) 0)
gsc_get_plane_size align width height nv16 = some (sizes (width * height * 2) 0 0)
gsc_get_plane_size align width height nv61 = some (sizes (width * height * 2) 0 0)
gsc_get_plane_size align width height nv12mt_16x16 =
    some (sizes (align width 16 * align height 16) (align width 16 * align (height / 2) 8) 0)
gsc_get_plane_size align width height yvu420m =
    some (sizes (width * height) (width / 2 * (height / 2)) (width / 2 * (height / 2)))
gsc_get_plane_size align width height yuv420m =
    some (sizes (width * height) (width / 2 * (height / 2)) (width / 2 * (height / 2)))
gsc_get_plane_size align width height yuv422p =
    some (sizes (width * height) (width / 2 * (height / 2)) (width / 2 * (height / 2)))
gsc_get_plane_size align width height unmatched = none

abbrev pub min_w_size : ℕ
min_w_size = 16

abbrev pub min_h_size : ℕ
min_h_size = 8

unfoldable pub gsc_check_size : ℕ → ℕ → ℕ → ℕ → ℕ → Bool
gsc_check_size w h crop_w crop_h rot =
    if rot == 0 || rot == 180
    then not
        (ltb w min_w_size || ltb h min_h_size || ltb crop_w min_w_size || ltb crop_h min_h_size)
    else not
        (ltb h min_w_size || ltb w min_h_size || ltb crop_h min_w_size || ltb crop_w min_h_size)
