-- ===== src/Hwc/Mode.antt =====
-- gsc_mode_change_check of libhwc/ExynosHWC.cpp: whether the scaler is used from memory to memory or for output.
use exynos.Common.{
  ℕ, suc, Bool, true, false, not, ◌&&◌, ◌||◌, none, some, List, [], ◌∷◌, ltb, leb, ◌==◌,
  if◌then◌else◌,
}
use exynos.Common.Int.{ℤ, pos, ltb_ℤ, pos_part, times}
use exynos.Hwc.Types.{
  Area, Layer, Window, GscMode, m2m, output, destroy, create, Env, HwcContext, num_of_win,
}
use exynos.Hwc.Decide.{check_yuv_format, width, height}

abbrev pub is_yuv : Layer → Bool
is_yuv cur = elim cur.handle [ none ↦ false | some handle ↦ check_yuv_format handle.format ]

unfoldable pub get_hwc_num_of_yuv_layers : List Layer → ℕ
get_hwc_num_of_yuv_layers [] = 0
get_hwc_num_of_yuv_layers (cur ∷ list) =
    let rest = get_hwc_num_of_yuv_layers list in if is_yuv cur then suc rest else rest

-- The ratio that hwc_device_open stores in the context for a screen.
unfoldable pub get_gsc_out_down_scale_ratio : ℕ → ℕ → ℕ
get_gsc_out_down_scale_ratio xres yres =
    if (xres == 720 || xres == 640) && yres == 480
    then 4
    else if xres == 1024 && yres == 600
    then 4
    else if xres == 1280 && yres == 720
    then 4
    else if xres == 1280 && yres == 800
    then 3
    else if xres == 1920 && yres == 1080
    then 2
    else if xres == 800 && yres == 1280
    then 2
    else 1

-- `max_down_scale_ratio`, between 1 and 4.
unfoldable pub down_scale_ratio : ℤ → ℕ
down_scale_ratio r = if ltb_ℤ (pos 1) r then (if ltb_ℤ r (pos 4) then pos_part r else 4) else 1

unfoldable pub shrinks_beyond : ℕ → Layer → Bool
shrinks_beyond ratio cur =
    ltb_ℤ (times ratio (width cur.frame)) (width cur.crop)
    || ltb_ℤ (times ratio (height cur.frame)) (height cur.crop)

-- The loop over the layers, with the number of YUV layers that were met; `mode_change` is GSC_DEFAULT_MODE until the
-- loop ends. Of the transforms those with ROT_90 are not listed by the `switch`.
unfoldable pub mode_loop : Env → HwcContext → List Layer → ℕ → GscMode × ℕ
mode_loop env ctx [] n = (env.default_mode, n)
mode_loop env ctx (cur ∷ list) n =
    let skipped = mode_loop env ctx list n in
    let counted = mode_loop env ctx list (suc n) in
    if not (is_yuv cur)
    then skipped
    else if leb num_of_win n
    then (env.default_mode, n)
    else if cur.transform.rot_90
    then (m2m, suc n)
    else if shrinks_beyond (down_scale_ratio ctx.max_down_ratio) cur
    then (m2m, suc n)
    else if ltb 1 ctx.num_yuv
    then (env.default_mode, suc n)
    else if ltb 1 (suc n)
    then (m2m, suc n)
    else counted

abbrev pub same_mode : GscMode → GscMode → Bool
same_mode m2m m2m = true
same_mode output output = true
same_mode _ _ = false

abbrev no_area : Area
no_area = record { x = pos 0; y = pos 0; w = pos 0; h = pos 0 }

abbrev pub reset_win : GscMode → Window → Window
reset_win mode win = record win { mode = mode; rect = no_area }

-- The old instance is destroyed, and one with the new mode created, or not.
unfoldable pub change_mode : Env → GscMode → HwcContext → HwcContext
change_mode env mode ctx =
    let calls = destroy ∷ ctx.gsc_calls in
    let asked = record ctx { mode = mode; gsc_calls = create mode ∷ calls } in
    if env.created calls mode
    then record asked {
      gsc = true;
      win0 = reset_win mode asked.win0;
      win1 = reset_win mode asked.win1;
    }
    else record asked { gsc = false }

unfoldable pub gsc_mode_change_check : Env → List Layer → HwcContext → HwcContext
gsc_mode_change_check env list ctx =
    let (mode, n) = mode_loop env ctx list 0 in
    if not (same_mode ctx.mode mode) && not (n == 0) then change_mode env mode ctx else ctx
