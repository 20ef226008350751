-- ===== src/Hwc/Types.antt =====
-- The state of libhwc/ExynosHWC.cpp, and what it is given, in a build without BOARD_USES_HDMI, where SUPPORT_RGB_OVERLAY
-- is not defined.
use exynos.Common.{ℕ, zero, suc, Bool, Option, List}
use exynos.Common.Int.{ℤ}

-- The pixel formats that the code names; `other_format` is any other.
pub data PixelFormat : Type 0 where
  yv12 ycbcr_422_sp ycrcb_420_sp ycbcr_422_i ycbcr_422_p ycbcr_420_p ycbcr_420_i : PixelFormat
  cbycry_422_i cbycry_420_i ycbcr_420_sp ycrcb_422_sp custom_ycbcr_420_sp : PixelFormat
  custom_ycrcb_420_sp custom_ycbcr_420_sp_tiled custom_ycbcr_422_sp custom_ycrcb_422_sp :
      PixelFormat
  custom_ycbcr_422_i custom_ycrcb_422_i custom_cbycry_422_i custom_crycby_422_i : PixelFormat
  ycbcr_420_sp_tiled rgba_8888 bgra_8888 rgbx_8888 rgb_565 bgrx_8888 other_format : PixelFormat

-- `private_handle_t`: its address, its format, and two bits of `usage`, GRALLOC_USAGE_CAMERA and
-- GRALLOC_USAGE_HWC_HWOVERLAY.
pub record PrivateHandle : Type 0 where
  pub address : ℕ
  pub format : PixelFormat
  pub camera : Bool
  pub hwoverlay : Bool

-- The bits of a transform, as Android documents them: ROT_180 has both flips, ROT_270 all three.
pub record Transform : Type 0 where
  pub flip_h : Bool
  pub flip_v : Bool
  pub rot_90 : Bool

-- `hwc_rect_t`
pub record Rect : Type 0 where
  pub left : ℤ
  pub top : ℤ
  pub right : ℤ
  pub bottom : ℤ

-- `sec_rect`
pub record Area : Type 0 where
  pub x : ℤ
  pub y : ℤ
  pub w : ℤ
  pub h : ℤ

pub data Composition : Type 0 where
  framebuffer overlay : Composition

-- `hwc_layer_t`: `skip` is HWC_SKIP_LAYER of its flags, `opaque` says that `blending` is HWC_BLENDING_NONE, and
-- `clear_fb` that `hints` is HWC_HINT_CLEAR_FB.
pub record Layer : Type 0 where
  pub handle : Option PrivateHandle
  pub skip : Bool
  pub transform : Transform
  pub opaque : Bool
  pub crop : Rect
  pub frame : Rect
  pub composition : Composition
  pub clear_fb : Bool

pub data GscMode : Type 0 where
  m2m output : GscMode

-- `hwc_win_info_t`; `xres` and `yres` are those of `lcd_info`.
pub record Window : Type 0 where
  pub rect : Area
  pub src_rect : Area
  pub xres : ℕ
  pub yres : ℕ
  pub powered : Bool
  pub layer_index : ℕ
  pub reserved : Bool
  pub mode : GscMode
  pub need_win_config : Bool
  pub need_gsc_config : Bool
  pub gsc_started : Bool

-- `hwc_ui_lay_info`; the index `none` is -1.
pub record VirtualWindow : Type 0 where
  pub prev_buf : ℕ
  pub index : Option ℕ
  pub reserved : Bool

pub data GscCall : Type 0 where
  destroy : GscCall
  create : GscMode → GscCall

-- Whether exynos_gsc_create_exclusive succeeds after these calls; GSC_DEFAULT_MODE; and whether GSC_OTF_WA,
-- GSC_DST_1PLANE_NOT_SUPPORTED are defined, by libhwcmodule.
pub record Env : Type 0 where
  pub created : List GscCall → GscMode → Bool
  pub default_mode : GscMode
  pub otf_wa : Bool
  pub dst_1plane_not_supported : Bool
  pub support_bgrx_8888 : Bool

-- `hwc_context_t`. Its arrays of two are `win0` and `win1`, `prev0` and `prev1` (`layer_prev_buf`) and the list `virt`.
-- `gsc` says that `gsc_handle` is not NULL, and `gsc_calls` has the calls of libgscaler, the latest first.
pub record HwcContext : Type 0 where
  pub win0 : Window
  pub win1 : Window
  pub prev0 : ℕ
  pub prev1 : ℕ
  pub virt : List VirtualWindow
  pub skip_initialized : Bool
  pub num_fb_skip : ℕ
  pub ui_skip_frames : ℕ
  pub num_fb : ℕ
  pub num_hwc : ℕ
  pub num_fb_prev : ℕ
  pub mode : GscMode
  pub gsc : Bool
  pub rect_changed : Bool
  pub max_down_ratio : ℤ
  pub num_yuv : ℕ
  pub try_overlay : Bool
  pub delay_frames : ℕ
  pub gsc_calls : List GscCall

-- NUM_OF_WIN, and NUM_OF_DUMMY_WIN.
abbrev pub num_of_win : ℕ
num_of_win = 2

abbrev pub num_of_dummy_win : ℕ
num_of_dummy_win = 2

-- The elements of the arrays, for an index below two.
abbrev pub win_at : ℕ → HwcContext → Window
win_at zero c = c.win0
win_at (suc k) c = c.win1

abbrev pub set_win : ℕ → Window → HwcContext → HwcContext
set_win zero w c = record c { win0 = w }
set_win (suc k) w c = record c { win1 = w }

abbrev pub prev_at : ℕ → HwcContext → ℕ
prev_at zero c = c.prev0
prev_at (suc k) c = c.prev1

abbrev pub set_prev : ℕ → ℕ → HwcContext → HwcContext
set_prev zero p c = record c { prev0 = p }
set_prev (suc k) p c = record c { prev1 = p }
