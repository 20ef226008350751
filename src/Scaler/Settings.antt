-- ===== src/Scaler/Settings.antt =====
-- The functions of exynos_gscaler.c that only set fields of the handle. The locks around them and the
-- tests for a NULL handle are left out, here and in the other modules of the scaler.
use exynos.Common.{ℕ, zero, suc, ◌+◌, ◌%◌, not, ◌||◌, ◌==◌, leb, if◌then◌else◌, bit_and, bit_or}
use exynos.Common.Act.{pure, fail}
use exynos.Scaler.Format.{PixFmt}
use exynos.Scaler.Driver.{Env}
use exynos.Scaler.Handle.{Op, Side, dst_side, set_handle, set_side}

-- An `int`: `negsuc n` is -(n + 1).
pub data ℤ : Type 0 where
  pos : ℕ → ℤ
  negsuc : ℕ → ℤ

unfoldable pub neg : ℕ → ℤ
neg zero = pos 0
neg (suc n) = negsuc n

-- The remainder of C, which has the sign of the dividend.
unfoldable pub rem : ℤ → ℕ → ℤ
rem (pos a) n = pos (a % n)
rem (negsuc a) n = neg ((a + 1) % n)

unfoldable pub magnitude : ℤ → ℕ
magnitude (pos a) = a
magnitude (negsuc a) = a + 1

pub record Format : Type 0 where
  pub width : ℕ
  pub height : ℕ
  pub crop_left : ℕ
  pub crop_top : ℕ
  pub crop_width : ℕ
  pub crop_height : ℕ
  pub colorformat : PixFmt
  pub cacheable : ℕ
  pub mode_drm : ℕ

-- `exynos_gsc_set_src_format` and `exynos_gsc_set_dst_format`.
unfoldable pub gsc_set_format : Side → Format → Op
gsc_set_format side f = set_side side (λ i. record i {
  width = f.width;
  height = f.height;
  crop_left = f.crop_left;
  crop_top = f.crop_top;
  crop_width = f.crop_width;
  crop_height = f.crop_height;
  v4l2_colorformat = f.colorformat;
  cacheable = f.cacheable;
  mode_drm = f.mode_drm;
})

unfoldable pub gsc_set_rotation : ℤ → ℕ → ℕ → Op
unfolding rem neg magnitude
gsc_set_rotation rotation flip_horizontal flip_vertical =
    let new_rotation = rem rotation 360 in
    if not (magnitude (rem new_rotation 90) == 0)
    then fail
    else set_side dst_side (λ i. record i {
      rotation = magnitude new_rotation;
      flip_horizontal = flip_horizontal;
      flip_vertical = flip_vertical;
    })

-- `exynos_gsc_set_src_addr` and `exynos_gsc_set_dst_addr`.
unfoldable pub gsc_set_addr : Side → ℕ → ℕ → ℕ → Op
gsc_set_addr side a b c = set_side side (λ i. record i { addr0 = a; addr1 = b; addr2 = c })

-- What rotateValueHAL2GSC stores through its pointers.
pub record Rotation : Type 0 where
  pub rotate : ℕ
  pub hflip : ℕ
  pub vflip : ℕ

abbrev rotation_of : ℕ → ℕ → ℕ → Rotation
rotation_of r h v = record { rotate = r; hflip = h; vflip = v }

unfoldable pub rotate_value_hal_to_gsc : Env → ℕ → Rotation
rotate_value_hal_to_gsc env transform =
    let flag = bit_and transform 7 in
    if flag == env.rot_90
    then rotation_of 90 0 0
    else if flag == env.rot_180
    then rotation_of 180 0 0
    else if flag == env.rot_270
    then rotation_of 270 0 0
    else if flag == bit_or env.flip_h env.rot_90
    then rotation_of 90 0 1
    else if flag == bit_or env.flip_v env.rot_90
    then rotation_of 90 1 0
    else if flag == env.flip_h
    then rotation_of 0 1 0
    else if flag == env.flip_v
    then rotation_of 0 0 1
    else rotation_of 0 0 0

unfoldable pub gsc_set_out_mode : ℤ → Op
gsc_set_out_mode (negsuc n) = fail
gsc_set_out_mode (pos m) =
    if leb m 0 || leb 5 m then fail else set_handle (λ h. record h { out_mode = m })

-- `val` points to an int.
unfoldable pub gsc_set_ctrl : ℕ → ℤ → Op
unfolding gsc_set_out_mode
gsc_set_ctrl ctrl_id value = if ctrl_id == 0 then gsc_set_out_mode value else pure tt
