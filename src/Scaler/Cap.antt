-- ===== src/Scaler/Cap.antt =====
-- The capture path of exynos_gscaler.c: from a display to memory.
use exynos.Common.{◌+◌, ◌%◌, true, not, ◌||◌, none, some, ◌==◌, if◌then◌else◌}
use exynos.Common.Act.{crash, pure, fail, ◌>>=◌, ◌>>◌}
use exynos.Scaler.Format.{gsc_get_plane_size}
use exynos.Scaler.Driver.{
  video_capture, cacheable, csc_range, field_none, xrgb8888_4x8_le, gsc_sink, Fd, s_ctrl, s_fmt,
  s_crop, subdev_s_fmt, reqbufs, qbuf, dqbuf, streamon, set_vsync_int, poll, Env,
}
use exynos.Scaler.Handle.{Image, Op, call, set_handle, set_src, set_dst, get_handle, vd_fd, sd_fd}
use exynos.Scaler.Ratio.{gsc_scale_ratio_check}
use exynos.Scaler.M2m.{fill_planes, or_default}
use exynos.Scaler.Out.{planes_of, crop_of}

unfoldable pub cap_send : Env → Op
cap_send env = do
  h ← get_handle
  let pix = env.v4l2_pix h.dst_img.format
  sd ← sd_fd
  call env (subdev_s_fmt sd gsc_sink h.src_img.fw h.src_img.fh xrgb8888_4x8_le)
  vd ← vd_fd
  call env (
      s_fmt vd video_capture record {
        width = h.dst_img.fw;
        height = h.dst_img.fh;
        pixelformat = pix;
        field = field_none;
        num_planes = planes_of env pix;
      })
  call env (s_crop vd video_capture (crop_of h.dst_img))
  set_handle (λ g. record g {
    dst_img = record g.dst_img { rgb_csc_type = or_default g.dst_img.rgb_csc_type };
  })
  call env (s_ctrl vd csc_range (or_default h.dst_img.rgb_csc_type))
  call env (s_ctrl vd cacheable h.src_img.cacheable)
  call env (reqbufs vd video_capture h.dst_img.req_buf_cnt)
  pure tt

-- The code resets the index of the target and the count of the source.
unfoldable pub gsc_cap_config : Env → Image → Image → Op
gsc_cap_config env src dst = do
  old ← get_handle
  if old.dst.stream_on then fail else do
    set_handle (λ h. record h { src_img = src; dst_img = dst })
    h ← get_handle
    if not (gsc_scale_ratio_check h) then fail else do
      set_dst (λ i. record i { buf_idx = 0 })
      set_src (λ i. record i { qbuf_cnt = 0 })
      cap_send env

-- Once all the buffers are queued, the stream is turned on, and with it the interrupt of the display.
unfoldable pub cap_start : Env → Fd → Op
cap_start env vd = do
  h ← get_handle
  if h.dst.stream_on || not (h.dst.buf_idx == h.dst_img.req_buf_cnt) then pure tt else do
    call env (streamon vd video_capture)
    set_dst (λ i. record i { stream_on = true })
    call env (set_vsync_int h.fb_fd 1)
    pure tt

-- A remainder by 0 ends the program.
unfoldable pub cap_wrap : Op
cap_wrap = do
  h ← get_handle
  if h.dst_img.req_buf_cnt == 0
      then (λ s. (crash, s))
      else set_dst (λ i. record i { buf_idx = i.buf_idx % h.dst_img.req_buf_cnt })

unfoldable pub gsc_cap_run : Env → Image → Op
gsc_cap_run env dst = do
  h ← get_handle
  set_dst (λ i. record i { addr0 = dst.yaddr; addr1 = dst.uaddr; addr2 = dst.vaddr })
  let pix = env.v4l2_pix h.dst_img.format
  elim (gsc_get_plane_size env.align h.dst_img.fw h.dst_img.fh pix) [
    | none ↦ fail
    | some z ↦ do
      h1 ← get_handle
      planes ← fill_planes true h1.dst z (planes_of env pix)
      vd ← vd_fd
      call env (qbuf vd video_capture h.dst.buf_idx planes)
      set_dst (λ i. record i { buf_idx = i.buf_idx + 1 })
      cap_start env vd
      cap_wrap
  ]

unfoldable pub gsc_cap_wait_frame_done : Env → Op
gsc_cap_wait_frame_done env = do
  vd ← vd_fd
  call env (poll vd)
  call env (dqbuf vd video_capture)
  pure tt
