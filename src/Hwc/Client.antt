-- ===== src/Hwc/Client.antt =====
-- A screen in use: calls of hwc_prepare of libhwc/ExynosHWC.cpp, and of hwc_set without a display or a surface, which
-- turns the windows off. What hwc_set does with a display is not part of the model.
use exynos.Common.{◌+◌, Bool, false, Option, none, some, List, [], ◌∷◌, if◌then◌else◌}
use exynos.Hwc.Types.{Env, HwcContext, Layer, Window}
use exynos.Hwc.Decide.{is_m2m}
use exynos.Hwc.Prepare.{hwc_prepare}

-- window_hide; `done` says that FBIOBLANK succeeds.
unfoldable pub window_hide : Bool → Window → Window
window_hide done win =
    if is_m2m win.mode then record win { powered = if done then false else win.powered } else win

-- hwc_set where `sur` or `dpy` is NULL.
unfoldable pub hwc_set_none : Bool → Bool → HwcContext → HwcContext
hwc_set_none done0 done1 ctx = record ctx {
  skip_initialized = false;
  num_fb = ctx.num_fb + ctx.num_fb_skip;
  num_fb_skip = 0;
  prev0 = 0;
  prev1 = 0;
  win0 = window_hide done0 ctx.win0;
  win1 = window_hide done1 ctx.win1;
}

-- A frame has the flag HWC_GEOMETRY_CHANGED and the layers; the screen is turned off with the answers for two windows.
pub data Event : Type 0 where
  frame : Bool → List Layer → Event
  turn_off : Bool → Bool → Event

abbrev pub contexts : Option (HwcContext × List Layer) → Option HwcContext
contexts none = none
contexts (some (ctx, list)) = some ctx

unfoldable pub handle_event : Env → Event → HwcContext → Option HwcContext
handle_event env (frame changed list) ctx = contexts (hwc_prepare env changed list ctx)
handle_event env (turn_off done0 done1) ctx = some (hwc_set_none done0 done1 ctx)

unfoldable pub run_screen : Env → List Event → HwcContext → Option HwcContext
run_screen env [] ctx = some ctx
run_screen env (event ∷ events) ctx = elim (handle_event env event ctx) [
  | none ↦ none
  | some ctx' ↦ run_screen env events ctx'
]
