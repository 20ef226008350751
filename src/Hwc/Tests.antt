-- ===== src/Hwc/Tests.antt =====
-- Runs of hwc_prepare of libhwc/ExynosHWC.cpp, and the theorems at concrete inputs.
use exynos.Common.{ℕ, ◌≡◌, refl, true, false, none, some, List, [], ◌∷◌}
use exynos.Common.Int.{pos, ◌-ℤ◌, ◌+ℤ◌, times, quot, is_multiple, to_u32}
use exynos.Hwc.Types.{
  PixelFormat, yv12, rgba_8888, Transform, Rect, Area, framebuffer, Layer, m2m, output, Window,
  VirtualWindow, Env, HwcContext,
}
use exynos.Hwc.Decide.{
  calculate_rect, clip, get_hwc_compos_decision, off_screen, target_too_small, upscaled_too_much,
  source_aligned, gsc_check_src_align, aligned_for, scaler_busy, out_of_limits, overlay_format,
  check_yuv_format,
}
use exynos.Hwc.Mode.{
  gsc_mode_change_check, get_hwc_num_of_yuv_layers, mode_loop, shrinks_beyond, down_scale_ratio,
}
use exynos.Hwc.Prepare.{
  compose, compose_layers, compose_layer, assign_overlay_window, new_place, move_window, reserve,
}
use exynos.Hwc.Client.{Event, frame, turn_off, run_screen}
use exynos.Hwc.Windows.{Placed, hwc_prepare-Placed}
use exynos.Hwc.Scaling.{first_yuv, mode_for, wanted_mode, gsc_mode_change_check-first}
use exynos.Hwc.Retry.{WantsMode}
use exynos.Hwc.Stuck.{AllWant, Stuck, run_screen-Stuck}
use exynos.Hwc.Prepare.{hwc_prepare}

abbrev no_area : Area
no_area = record { x = pos 0; y = pos 0; w = pos 0; h = pos 0 }

abbrev window : Window
window = record {
  rect = no_area;
  src_rect = no_area;
  xres = 1280;
  yres = 800;
  powered = false;
  layer_index = 0;
  reserved = false;
  mode = output;
  need_win_config = false;
  need_gsc_config = false;
  gsc_started = false;
}

abbrev unused : VirtualWindow
unused = record { prev_buf = 0; index = none; reserved = false }

abbrev screen : HwcContext
screen = record {
  win0 = window;
  win1 = window;
  prev0 = 0;
  prev1 = 0;
  virt = unused ∷ unused ∷ [];
  skip_initialized = false;
  num_fb_skip = 0;
  ui_skip_frames = 0;
  num_fb = 0;
  num_hwc = 0;
  num_fb_prev = 0;
  mode = output;
  gsc = true;
  rect_changed = false;
  max_down_ratio = pos 4;
  num_yuv = 0;
  try_overlay = false;
  delay_frames = 0;
  gsc_calls = [];
}

abbrev system : Env
system = record {
  created = λ calls mode. true;
  default_mode = output;
  otf_wa = false;
  dst_1plane_not_supported = false;
  support_bgrx_8888 = false;
}

abbrev upright : Transform
upright = record { flip_h = false; flip_v = false; rot_90 = false }

abbrev rect : ℕ → ℕ → ℕ → ℕ → Rect
rect l t r b = record { left = pos l; top = pos t; right = pos r; bottom = pos b }

abbrev layer : PixelFormat → ℕ → Rect → Rect → Layer
layer format address crop place = record {
  handle = some (record { address = address; format = format; camera = false; hwoverlay = true });
  skip = false;
  transform = upright;
  opaque = true;
  crop = crop;
  frame = place;
  composition = framebuffer;
  clear_fb = false;
}

abbrev video : Layer
video = layer yv12 4096 (rect 0 0 640 480) (rect 320 160 960 640)

abbrev ui : ℕ → Layer
ui address = layer rgba_8888 address (rect 0 0 1280 800) (rect 0 0 1280 800)

compose_test : (compose system true (video ∷ ui 8192 ∷ []) screen).0.num_hwc ≡ 1
unfolding compose get_hwc_num_of_yuv_layers gsc_mode_change_check mode_loop compose_layers
    compose_layer overlay_format get_hwc_compos_decision scaler_busy out_of_limits off_screen
    target_too_small upscaled_too_much source_aligned gsc_check_src_align aligned_for quot
    is_multiple to_u32 ◌-ℤ◌ ◌+ℤ◌ times check_yuv_format assign_overlay_window new_place move_window
    reserve calculate_rect clip shrinks_beyond down_scale_ratio
compose_test = refl

hwc_prepare-Placed_example :
    (out : HwcContext × List Layer) × (hwc_prepare system true (video ∷ ui 8192 ∷ []) screen
      ≡ some out)
    × Placed (video ∷ ui 8192 ∷ []) out
hwc_prepare-Placed_example = hwc_prepare-Placed system true (video ∷ ui 8192 ∷ []) screen refl

abbrev from_memory : HwcContext
from_memory = record screen { num_yuv = 1; mode = m2m }

one_yuv : 1 ≡ get_hwc_num_of_yuv_layers (ui 8192 ∷ video ∷ [])
unfolding get_hwc_num_of_yuv_layers check_yuv_format
one_yuv = refl

gsc_mode_change_check-first_example :
    gsc_mode_change_check system (ui 8192 ∷ video ∷ []) from_memory
    ≡ mode_for system from_memory (first_yuv (ui 8192 ∷ video ∷ []))
gsc_mode_change_check-first_example =
    gsc_mode_change_check-first system (ui 8192 ∷ video ∷ []) from_memory one_yuv

abbrev without_scaler : HwcContext
without_scaler = record screen { gsc = false }

wants_output : WantsMode system without_scaler (video ∷ ui 8192 ∷ [])
unfolding first_yuv wanted_mode check_yuv_format shrinks_beyond down_scale_ratio times ◌-ℤ◌
wants_output cur e = rw (← some_inj cur e) refl
  where
    some_inj : (cur : Layer) → some video ≡ some cur → video ≡ cur
    some_inj cur e = cc e

abbrev without_scaler_events : List Event
without_scaler_events =
    frame true (video ∷ ui 8192 ∷ [])
    ∷ frame false (video ∷ ui 8192 ∷ [])
    ∷ turn_off true true
    ∷ frame true (video ∷ ui 8192 ∷ [])
    ∷ []

events-AllWant : AllWant system without_scaler without_scaler_events
unfolding AllWant
events-AllWant = (wants_output, (wants_output, (wants_output, tt)))

run_screen-Stuck_example :
    (c : HwcContext) × (run_screen system without_scaler_events without_scaler ≡ some c)
    × Stuck without_scaler c
run_screen-Stuck_example =
    run_screen-Stuck system without_scaler_events without_scaler refl refl events-AllWant

abbrev events : List Event
events =
    frame true (video ∷ ui 8192 ∷ [])
    ∷ frame false (video ∷ ui 8192 ∷ [])
    ∷ frame false (video ∷ ui 8192 ∷ [])
    ∷ turn_off true true
    ∷ frame false (video ∷ ui 12288 ∷ [])
    ∷ []
