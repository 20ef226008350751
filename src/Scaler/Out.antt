-- ===== src/Scaler/Out.antt =====
-- The output path of exynos_gscaler.c: from memory to a display.
use exynos.Common.{
  ℕ, ◌+◌, ◌-◌, ◌%◌, true, not, ◌&&◌, ◌||◌, none, some, List, [], ◌∷◌, ◌==◌, Bool, ltb, leb, u32,
  if◌then◌else◌,
}
use exynos.Common.Act.{pure, fail, ◌>>=◌, ◌>>◌}
use exynos.Scaler.Format.{PixFmt, gsc_get_plane_size, gsc_check_size}
use exynos.Scaler.Driver.{
  video_output, rotate, hflip, vflip, cacheable, use_sysmmu, field_none, yuv8_1x24, xrgb8888_4x8_le,
  gsc_source, mixer_sink, mixer_source, fimd_sink, Rect, Fd, Request, s_ctrl, s_fmt, s_crop,
  subdev_s_fmt, subdev_s_crop, reqbufs, qbuf, dqbuf, streamon, Env,
}
use exynos.Scaler.Handle.{
  Image, Info, Handle, Op, call, attempt, call_all, set_handle, set_src, get_handle, vd_fd, sd_fd,
  sink_fd,
}
use exynos.Scaler.Ratio.{gsc_scale_ratio_check}
use exynos.Scaler.Settings.{Rotation, rotate_value_hal_to_gsc}
use exynos.Scaler.M2m.{c_not, fill_planes}

abbrev pub max_buffers_out : ℕ
max_buffers_out = 3

-- `get_yuv_planes`, whose -1 stands for one plane.
abbrev pub planes_of : Env → PixFmt → ℕ
planes_of env pix = elim (env.yuv_planes pix) [ none ↦ 1 | some n ↦ n ]

abbrev pub crop_of : Image → Rect
crop_of i = record { left = i.x; top = i.y; width = i.w; height = i.h }

abbrev at_origin : Image → Rect
at_origin i = record { left = 0; top = 0; width = i.w; height = i.h }

-- The copies of the images; on the way to the FIMD the width of the target loses its last bit.
abbrev pub copied : Image → Image → Handle → Handle
copied src dst h = record h {
  src_img = src;
  dst_img = if h.out_mode == 1 then record dst { w = dst.w - dst.w % 2 } else dst;
}

-- What is sent to the subdevice of the scaler, and to the display's.
unfoldable pub source_requests : Fd → ℕ → Image → List Request
source_requests sd out_mode i =
    if out_mode == 1
    then subdev_s_fmt sd gsc_source i.fw i.fh yuv8_1x24
      ∷ subdev_s_crop sd gsc_source (crop_of i)
      ∷ []
    else subdev_s_fmt sd gsc_source i.w i.h yuv8_1x24
      ∷ subdev_s_crop sd gsc_source (at_origin i)
      ∷ []

unfoldable pub sink_requests : Fd → ℕ → Image → List Request
sink_requests sink out_mode i =
    if out_mode == 1
    then subdev_s_fmt sink fimd_sink i.w i.h yuv8_1x24
      ∷ subdev_s_crop sink fimd_sink (crop_of i)
      ∷ []
    else subdev_s_fmt sink mixer_sink i.w i.h yuv8_1x24
      ∷ subdev_s_crop sink mixer_sink (at_origin i)
      ∷ subdev_s_fmt sink mixer_source i.fw i.fh
          (if out_mode == 2 then yuv8_1x24 else xrgb8888_4x8_le)
      ∷ subdev_s_crop sink mixer_source (crop_of i)
      ∷ []

-- What is sent to the device once the tests have passed. A failure of `use_sysmmu` is `return false`, which is 0.
unfoldable pub out_send : Env → Rotation → Op
out_send env r = do
  h ← get_handle
  let pix = env.v4l2_pix h.src_img.format
  vd ← vd_fd
  call env (
      s_fmt vd video_output record {
        width = h.src_img.fw;
        height = h.src_img.fh;
        pixelformat = pix;
        field = field_none;
        num_planes = planes_of env pix;
      })
  call env (s_crop vd video_output (crop_of h.src_img))
  sd ← sd_fd
  call_all env (source_requests sd h.out_mode h.dst_img)
  sink ← sink_fd
  call_all env (sink_requests sink h.out_mode h.dst_img)
  call env (s_ctrl vd rotate r.rotate)
  call env (s_ctrl vd hflip r.vflip)
  call env (s_ctrl vd vflip r.hflip)
  call env (s_ctrl vd cacheable h.src_img.cacheable)
  done ← attempt env (s_ctrl vd use_sysmmu (c_not h.src_img.drm_mode))
  if not done then pure tt else do call env (reqbufs vd video_output max_buffers_out); pure tt

unfoldable pub gsc_out_config : Env → Image → Image → Op
gsc_out_config env src dst = do
  old ← get_handle
  if old.src.stream_on then fail else do
    set_handle (copied src dst)
    h ← get_handle
    let r = rotate_value_hal_to_gsc env dst.rot
    let s = h.src_img
    let d = h.dst_img
    if not (
          gsc_scale_ratio_check h
          && gsc_check_size s.fw s.fh s.w s.h 0
          && gsc_check_size d.fw d.fh d.w d.h r.rotate)
        then fail
        else do set_src (λ i. record i { buf_idx = 0; qbuf_cnt = 0 }); out_send env r

-- Built without GSC_OUT_DELAYED_STREAMON, as exynos_gsc_utils.h has it: the first buffer starts the stream.
unfoldable pub out_start : Env → Fd → Op
out_start env vd = do
  h ← get_handle
  if h.src.stream_on || not (h.src.buf_idx == max_buffers_out - 2)
      then pure tt
      else do call env (streamon vd video_output); set_src (λ i. record i { stream_on = true })

-- An int that is held as its 32-bit word is less than a small number.
abbrev pub int_below : ℕ → ℕ → Bool
int_below w k = ltb w k || leb 2147483648 w

abbrev pub bumped : Info → Info
bumped i = record i { buf_idx = i.buf_idx + 1; qbuf_cnt = u32 (i.qbuf_cnt + 1) }

-- A buffer has been queued.
unfoldable pub out_advance : Env → Fd → Op
out_advance env vd = do
  set_src bumped
  out_start env vd
  set_src (λ i. record i { buf_idx = i.buf_idx % max_buffers_out })

-- Built without GSC_OUT_DMA_BLOCKING, as exynos_gsc_utils.h has it.
unfoldable pub gsc_out_run : Env → ℕ → ℕ → ℕ → Op
gsc_out_run env y u v = do
  h ← get_handle
  let pix = env.v4l2_pix h.src_img.format
  set_src (λ i. record i { addr0 = y; addr1 = u; addr2 = v })
  elim (gsc_get_plane_size env.align h.src_img.fw h.src_img.fh pix) [
    | none ↦ fail
    | some z ↦ do
      h1 ← get_handle
      planes ← fill_planes true h1.src z (planes_of env pix)
      vd ← vd_fd
      call env (qbuf vd video_output h.src.buf_idx planes)
      out_advance env vd
  ]

unfoldable pub gsc_out_wait_frame_done : Env → Op
gsc_out_wait_frame_done env = do
  h ← get_handle
  if int_below h.src.qbuf_cnt max_buffers_out
      then pure tt
      else do vd ← vd_fd; call env (dqbuf vd video_output); pure tt
