-- ===== src/Hwc/Prepare.antt =====
-- hwc_prepare of libhwc/ExynosHWC.cpp, with assign_overlay_window.
use exynos.Common.{
  ℕ, suc, ◌+◌, ◌-◌, ◌%◌, Bool, true, false, not, ◌&&◌, ◌||◌, Option, none, some, List, [], ◌∷◌, ltb,
  leb, ◌==◌, if◌then◌else◌,
}
use exynos.Common.Int.{ℤ, pos, negsuc, ◌+ℤ◌, eqb_ℤ}
use exynos.Hwc.Types.{
  PrivateHandle, Rect, Area, Composition, framebuffer, overlay, Layer, Window, VirtualWindow, Env,
  HwcContext, num_of_win, win_at, set_win, prev_at, set_prev,
}
use exynos.Hwc.Decide.{width, height, calculate_rect, get_hwc_compos_decision, is_m2m}
use exynos.Hwc.Mode.{get_hwc_num_of_yuv_layers, gsc_mode_change_check}
use exynos.Hwc.Skip.{get_hwc_ui_lay_skipdraw_decision}

abbrev pub same_place : Area → Area → Bool
same_place a b = eqb_ℤ a.x b.x && eqb_ℤ a.y b.y

abbrev pub same_size : Area → Area → Bool
same_size a b = eqb_ℤ a.w b.w && eqb_ℤ a.h b.h

abbrev pub crop_area : Rect → Area
crop_area r = record { x = r.left; y = r.top; w = width r; h = height r }

-- `z & ~1`
abbrev even_down : ℤ → ℤ
even_down (pos n) = pos (n - n % 2)
even_down (negsuc n) = negsuc (n + (1 - n % 2))

abbrev even_up : ℤ → ℤ
even_up z = even_down (z +ℤ pos 1)

-- The window is in output mode, and its scaler runs or has to rest.
abbrev pub is_busy : HwcContext → Window → Bool
is_busy ctx win = not (is_m2m win.mode) && (win.gsc_started || ltb 0 ctx.delay_frames)

-- The return value of assign_overlay_window, which is 0 for `true`, and the context.
abbrev pub Assigned : Type 0
Assigned = Bool × HwcContext

abbrev pub refuse : HwcContext → Assigned
refuse ctx = (false, ctx)

abbrev pub refuse_and_retry : HwcContext → Assigned
refuse_and_retry ctx = (false, record ctx { try_overlay = true })

unfoldable pub reserve : ℕ → ℕ → Window → HwcContext → Assigned
reserve k i win ctx = (true, set_win k (record win { layer_index = i; reserved = true }) ctx)

-- The window moves to `rect`.
unfoldable pub move_window : ℕ → ℕ → Layer → PrivateHandle → Area → HwcContext → Assigned
move_window k i cur handle rect ctx =
    let win = win_at k ctx in
    if win.powered && not (same_size rect win.rect)
    then refuse_and_retry ctx
    else if is_busy ctx win
    then refuse_and_retry ctx
    else let moved = record win {
      src_rect = crop_area cur.crop;
      rect = rect;
      need_win_config = true;
      need_gsc_config = true;
    } in
      let settled = record ctx { try_overlay = false } in
      reserve k i moved (if handle.camera then settled else set_prev k 0 settled)

-- With GSC_OTF_WA the window stands at even places.
abbrev pub is_near : Area → Area → Bool
is_near old rect =
    same_size old rect
    && ((eqb_ℤ old.x (even_down rect.x) || eqb_ℤ old.x (rect.x +ℤ pos 1))
        && (eqb_ℤ old.y (even_down rect.y) || eqb_ℤ old.y (rect.y +ℤ pos 1)))

abbrev pub to_even : Area → Area
to_even rect = record rect { x = even_up rect.x; y = even_up rect.y }

unfoldable pub new_place : Env → ℕ → ℕ → Layer → PrivateHandle → Area → HwcContext → Assigned
new_place env k i cur handle rect ctx =
    let win = win_at k ctx in
    let is_output = not (is_m2m win.mode) in
    if handle.camera
    then (if not (prev_at k ctx == handle.address) && (is_output && ctx.rect_changed)
        then refuse ctx
        else move_window k i cur handle rect ctx)
    else if env.otf_wa && is_output
    then (if is_near win.rect rect
        then reserve k i win ctx
        else move_window k i cur handle (to_even rect) ctx)
    else move_window k i cur handle rect ctx

unfoldable pub same_place_again : ℕ → ℕ → Layer → HwcContext → Assigned
same_place_again k i cur ctx =
    let win = win_at k ctx in
    let source = crop_area cur.crop in
    if same_place win.src_rect source && same_size win.src_rect source
    then reserve k i win ctx
    else if is_busy ctx win
    then refuse_and_retry ctx
    else reserve k i (record win { src_rect = source }) (record ctx { try_overlay = false })

-- `ovly_lay_type` is HWC_YUV_OVLY in this build.
unfoldable pub assign_overlay_window : Env → Layer → PrivateHandle → ℕ → ℕ → HwcContext → Assigned
assign_overlay_window env cur handle k i ctx =
    let win = win_at k ctx in
    let rect = calculate_rect win cur in
    if leb num_of_win k
    then refuse ctx
    else if ctx.try_overlay && is_busy ctx win
    then refuse ctx
    else if same_place rect win.rect && same_size rect win.rect
    then same_place_again k i cur ctx
    else new_place env k i cur handle rect ctx

-- What becomes of one layer: the context, the layer and the number of windows used.
abbrev pub Composed : Type 0
Composed = HwcContext × Layer × ℕ

abbrev pub leave_to_gpu : Layer → ℕ → HwcContext → Composed
leave_to_gpu cur k ctx =
    (record ctx { num_fb = suc ctx.num_fb }, record cur { composition = framebuffer }, k)

abbrev pub take_layer : Layer → ℕ → HwcContext → Composed
take_layer cur k ctx = (
  record ctx { num_hwc = suc ctx.num_hwc },
  record cur { composition = overlay; clear_fb = true },
  suc k,
)

abbrev pub after_assign : Layer → ℕ → Assigned → Composed
after_assign cur k (true, ctx) = take_layer cur k ctx
after_assign cur k (false, ctx) = leave_to_gpu cur k ctx

abbrev pub decided : Env → Layer → PrivateHandle → ℕ → ℕ → HwcContext → Composition → Composed
decided env cur handle k i ctx framebuffer = leave_to_gpu cur k ctx
decided env cur handle k i ctx overlay =
    after_assign cur k (assign_overlay_window env cur handle k i ctx)

-- A layer with no handle is never an overlay.
unfoldable pub compose_layer : Env → Layer → ℕ → ℕ → HwcContext → Composed
compose_layer env cur k i ctx =
    if ltb k num_of_win
    then elim cur.handle [
      | none ↦ leave_to_gpu cur k ctx
      | some handle ↦ decided env cur handle k i ctx (get_hwc_compos_decision env ctx cur k)
    ]
    else leave_to_gpu cur k ctx

unfoldable pub compose_layers : Env → List Layer → ℕ → ℕ → HwcContext → HwcContext × List Layer
compose_layers env [] k i ctx = (ctx, [])
compose_layers env (cur ∷ list) k i ctx =
    let (ctx', cur', k') = compose_layer env cur k i ctx in
    let (ctx'', list') = compose_layers env list k' (i + 1) ctx' in (ctx'', cur' ∷ list')

abbrev pub free_window : Window → Window
free_window win = record win { reserved = false }

-- The work of hwc_prepare once there is something to do.
unfoldable pub compose : Env → Bool → List Layer → HwcContext → HwcContext × List Layer
compose env changed list ctx =
    let counted = record ctx { num_yuv = get_hwc_num_of_yuv_layers list } in
    let checked = gsc_mode_change_check env list counted in
    compose_layers env list 0 0 (record checked {
      rect_changed = changed;
      win0 = free_window checked.win0;
      win1 = free_window checked.win1;
      num_hwc = 0;
      num_fb = 0;
    })

abbrev unused : VirtualWindow
unused = record { prev_buf = 0; index = none; reserved = false }

unfoldable pub forget_skipped : HwcContext → HwcContext
forget_skipped ctx = record ctx {
  skip_initialized = false;
  num_fb_skip = 0;
  ui_skip_frames = 0;
  virt = unused ∷ unused ∷ [];
}

-- `changed` is HWC_GEOMETRY_CHANGED of the list's flags. `none` is an access outside an array.
unfoldable pub hwc_prepare : Env → Bool → List Layer → HwcContext → Option (HwcContext × List Layer)
hwc_prepare env changed list ctx =
    if not changed && (not ctx.try_overlay && ltb 0 ctx.num_hwc)
    then get_hwc_ui_lay_skipdraw_decision env ctx list
    else if not changed && (not ctx.try_overlay && not ctx.rect_changed)
    then some (forget_skipped ctx, list)
    else some (compose env changed list (forget_skipped ctx))

-- The call without a list.
abbrev pub hwc_prepare_none : HwcContext → HwcContext
hwc_prepare_none = forget_skipped
