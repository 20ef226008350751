-- ===== src/Hwc/Decide.antt =====
-- Which layer may be an overlay: get_hwc_compos_decision of libhwc/ExynosHWC.cpp and what it calls, and calculate_rect.
-- Values of type int do not overflow: the model computes with integers.
use exynos.Common.{ℕ, Bool, true, false, not, ◌&&◌, ◌||◌, none, some, ltb, ◌==◌, if◌then◌else◌}
use exynos.Common.Int.{ℤ, pos, ◌+ℤ◌, ◌-ℤ◌, ltb_ℤ, pos_part, times, quot, to_u32, is_multiple}
use exynos.Hwc.Types.{
  PixelFormat, yv12, ycrcb_420_sp, ycbcr_420_p, ycbcr_420_sp, ycbcr_420_sp_tiled, rgba_8888,
  bgra_8888, rgbx_8888, rgb_565, bgrx_8888, other_format, PrivateHandle, Transform, Rect, Area,
  Composition, framebuffer, overlay, Layer, m2m, output, GscMode, Window, Env, HwcContext, win_at,
}

abbrev pub width : Rect → ℤ
width r = r.right -ℤ r.left

abbrev pub height : Rect → ℤ
height r = r.bottom -ℤ r.top

abbrev pub Span : Type 0
Span = ℤ × ℤ

-- One direction of calculate_rect: begin and length of a frame, cut to the resolution, which is unsigned.
unfoldable pub clip : ℤ → ℤ → ℕ → Span
clip from to res =
    let len = to -ℤ from in
    let beyond = ltb res (to_u32 (len +ℤ from)) in
    if ltb_ℤ from (pos 0)
    then (pos 0, if beyond then pos res else len +ℤ from)
    else (from, if beyond then pos res -ℤ from else len)

unfoldable pub calculate_rect : Window → Layer → Area
calculate_rect win cur =
    let (x, w) = clip cur.frame.left cur.frame.right win.xres in
    let (y, h) = clip cur.frame.top cur.frame.bottom win.yres in
    record { x = x; y = y; w = w; h = h }

unfoldable pub check_yuv_format : PixelFormat → Bool
check_yuv_format rgba_8888 = false
check_yuv_format bgra_8888 = false
check_yuv_format rgbx_8888 = false
check_yuv_format rgb_565 = false
check_yuv_format bgrx_8888 = false
check_yuv_format other_format = false
check_yuv_format _ = true

-- One direction of gsc_check_src_align.
unfoldable pub aligned_for : ℤ → ℤ → Bool
aligned_for ratio size =
    if ltb_ℤ ratio (pos 5)
    then is_multiple 2 size
    else if ltb_ℤ ratio (pos 9)
    then is_multiple 4 size
    else if ltb_ℤ ratio (pos 17)
    then is_multiple 8 size
    else false

unfoldable pub gsc_check_src_align : ℤ → ℤ → ℤ → ℤ → Bool
gsc_check_src_align h_ratio v_ratio w h = aligned_for h_ratio w && aligned_for v_ratio h

-- `transform == HAL_TRANSFORM_ROT_90 || transform == HAL_TRANSFORM_ROT_270`
abbrev pub is_quarter : Transform → Bool
is_quarter t = t.rot_90 && ((t.flip_h && t.flip_v) || (not t.flip_h && not t.flip_v))

-- `(transform & HAL_TRANSFORM_ROT_90) || (transform & HAL_TRANSFORM_ROT_270)`, and ROT_270 has all bits.
abbrev pub has_any_bit : Transform → Bool
has_any_bit t = t.rot_90 || (t.flip_h || (t.flip_v || t.rot_90))

-- The frame is not on the screen: the resolution is unsigned, and what it is compared with becomes so.
unfoldable pub off_screen : Rect → Window → Bool
off_screen f win =
    ltb_ℤ f.left (pos 0)
    || (ltb win.xres (to_u32 f.right)
        || (ltb_ℤ f.top (pos 0)
            || (ltb win.yres (to_u32 f.bottom)
                || (ltb win.xres (to_u32 (width f)) || ltb win.yres (to_u32 (height f))))))

abbrev pub smaller : Rect → ℕ → ℕ → Bool
smaller r w h = ltb_ℤ (width r) (pos w) || ltb_ℤ (height r) (pos h)

unfoldable pub target_too_small : Transform → Rect → Bool
target_too_small t f = if is_quarter t then smaller f 8 16 else smaller f 16 8

-- MAX_UP_SCALING_RATIO_LIMIT is 8.
abbrev pub grows_beyond : Rect → ℤ → ℤ → Bool
grows_beyond crop w h = ltb_ℤ (times 8 (width crop)) w || ltb_ℤ (times 8 (height crop)) h

unfoldable pub upscaled_too_much : Transform → Rect → Rect → Bool
upscaled_too_much t crop f =
    if has_any_bit t
    then grows_beyond crop (height f) (width f)
    else grows_beyond crop (width f) (height f)

-- The ratios are quotients by sides of the frame, which are positive where the code divides.
unfoldable pub source_aligned : Transform → Rect → Rect → Bool
source_aligned t crop f =
    let w = width crop in
    let h = height crop in
    if is_quarter t
    then gsc_check_src_align (quot w (pos_part (height f))) (quot h (pos_part (width f))) w h
    else gsc_check_src_align (quot w (pos_part (width f))) (quot h (pos_part (height f))) w h

unfoldable pub overlay_format : PixelFormat → Bool
overlay_format yv12 = true
overlay_format ycbcr_420_p = true
overlay_format ycrcb_420_sp = true
overlay_format ycbcr_420_sp = true
overlay_format ycbcr_420_sp_tiled = true
overlay_format _ = false

abbrev pub when_overlay : Bool → Composition
when_overlay b = if b then overlay else framebuffer

abbrev pub is_m2m : GscMode → Bool
is_m2m m2m = true
is_m2m output = false

-- The tests on the state. GSC_M2M_WA is defined.
unfoldable pub scaler_busy : Env → HwcContext → ℕ → Bool
scaler_busy env ctx win_cnt =
    not ctx.gsc
    || ((ltb 0 win_cnt && ltb 1 ctx.num_yuv)
        || (env.dst_1plane_not_supported && (is_m2m ctx.mode && not (ctx.num_yuv == 0))))

-- The tests on the geometry of a layer, for a window.
unfoldable pub out_of_limits : Layer → Window → Bool
out_of_limits cur win =
    off_screen cur.frame win
    || (smaller cur.crop 16 8
        || (target_too_small cur.transform cur.frame
            || upscaled_too_much cur.transform cur.crop cur.frame))

abbrev pub with_handle : Env → HwcContext → Layer → ℕ → PrivateHandle → Composition
with_handle env ctx cur win_cnt handle =
    if cur.skip || (scaler_busy env ctx win_cnt || out_of_limits cur (win_at win_cnt ctx))
    then framebuffer
    else when_overlay (
        overlay_format handle.format
        && ((handle.hwoverlay && cur.opaque) && source_aligned cur.transform cur.crop cur.frame))

unfoldable pub get_hwc_compos_decision : Env → HwcContext → Layer → ℕ → Composition
get_hwc_compos_decision env ctx cur win_cnt = elim cur.handle [
  | none ↦ framebuffer
  | some handle ↦ with_handle env ctx cur win_cnt handle
]
