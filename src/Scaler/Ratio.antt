-- ===== src/Scaler/Ratio.antt =====
-- `exynos_gsc_scale_ratio_check` of exynos_gscaler.c.
use exynos.Common.{ℕ, ◌*◌, Bool, true, false, not, ◌&&◌, ◌||◌, ◌==◌, ltb, if◌then◌else◌, u32}
use exynos.Scaler.Handle.{Image, Handle}

-- `a` times `n`, as the C code computes it, is less than `b`, in the width or in the height.
unfoldable pub exceeds : ℕ → Image → Image → Bool
exceeds n a b = ltb (u32 (a.w * n)) b.w || ltb (u32 (a.h * n)) b.h

-- The size of the display, and what it allows on the output path.
unfoldable pub out_down_ok : ℕ → Image → Image → Bool
unfolding exceeds
out_down_ok out_mode src dst =
    if (dst.fw == 720 || dst.fw == 640) && dst.fh == 480
    then not (exceeds 4 dst src)
    else if dst.fw == 1024 && dst.fh == 600
    then not (exceeds 4 dst src)
    else if dst.fw == 1280 && dst.fh == 720
    then not (exceeds 4 dst src)
    else if dst.fw == 1280 && dst.fh == 800
    then not (exceeds 3 dst src || not (out_mode == 1))
    else if dst.fw == 800 && dst.fh == 1280
    then not (exceeds 2 dst src || not (out_mode == 1))
    else if dst.fw == 1920 && dst.fh == 1080
    then not (exceeds 2 dst src)
    else false

unfoldable pub up_ok : ℕ → Image → Image → Bool
up_ok mode src dst = if mode == 0 || mode == 1 || mode == 2 then not (exceeds 8 src dst) else true

unfoldable pub down_ok : ℕ → ℕ → Image → Image → Bool
down_ok mode out_mode src dst =
    if mode == 0
    then not (exceeds 16 dst src)
    else if mode == 1
    then out_down_ok out_mode src dst
    else if mode == 2
    then not (exceeds 8 dst src)
    else false

unfoldable pub gsc_scale_ratio_check : Handle → Bool
gsc_scale_ratio_check h =
    (if ltb h.src_img.w h.dst_img.w || ltb h.src_img.h h.dst_img.h
      then up_ok h.gsc_mode h.src_img h.dst_img
      else true)
    && (if ltb h.dst_img.w h.src_img.w || ltb h.dst_img.h h.src_img.h
        then down_ok h.gsc_mode h.out_mode h.src_img h.dst_img
        else true)
