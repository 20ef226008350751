-- ===== src/Scaler/Stop.antt =====
-- Stopping the output and the capture path of exynos_gscaler.c.
use exynos.Common.{false, not, if◌then◌else◌}
use exynos.Common.Act.{pure, ◌>>=◌, ◌>>◌}
use exynos.Scaler.Driver.{
  BufType, video_output, video_capture, use_sysmmu, s_ctrl, reqbufs, streamoff, set_vsync_int, Env,
}
use exynos.Scaler.Handle.{Info, Op, call, attempt, set_src, set_dst, get_handle, vd_fd}

abbrev pub rewind : Info → Info
rewind i = record i { buf_idx = 0; qbuf_cnt = 0 }

abbrev pub clear_bufs : Env → BufType → Op
clear_bufs env type = do fd ← vd_fd; call env (reqbufs fd type 0); pure tt

unfoldable pub gsc_out_streamoff : Env → Op
gsc_out_streamoff env = do
  h ← get_handle
  set_src rewind
  if not h.src.stream_on then pure tt else do
    set_src (λ i. record i { stream_on = false })
    fd ← vd_fd
    call env (streamoff fd video_output)
    pure tt

-- A failure of the control is `return false`, which is 0.
unfoldable pub gsc_out_stop : Env → Op
gsc_out_stop env = do
  h ← get_handle
  set_src rewind
  if not h.src.stream_on then clear_bufs env video_output else do
    set_src (λ i. record i { stream_on = false })
    fd ← vd_fd
    call env (streamoff fd video_output)
    done ← attempt env (s_ctrl fd use_sysmmu 0)
    if done then clear_bufs env video_output else pure tt

unfoldable pub gsc_cap_streamoff : Env → Op
gsc_cap_streamoff env = do
  h ← get_handle
  set_dst rewind
  if not h.dst.stream_on then pure tt else do
    set_dst (λ i. record i { stream_on = false })
    fd ← vd_fd
    call env (streamoff fd video_capture)
    pure tt

unfoldable pub gsc_cap_stop : Env → Op
gsc_cap_stop env = do
  h ← get_handle
  set_dst (λ i. record i { buf_idx = 0 })
  if not h.dst.stream_on then clear_bufs env video_capture else do
    set_dst (λ i. record i { stream_on = false })
    call env (set_vsync_int h.fb_fd 0)
    fd ← vd_fd
    call env (streamoff fd video_capture)
    clear_bufs env video_capture
