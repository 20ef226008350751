-- ===== src/Scaler/Api.antt =====
-- The entry points of exynos_gscaler.c: creation, and the choice by the mode of the handle.
use exynos.Common.{ℕ, false, ◌||◌, none, some, ◌==◌, leb, if◌then◌else◌}
use exynos.Common.Act.{pure, fail, rescue, ◌>>=◌, ◌>>◌}
use exynos.Scaler.Format.{unmatched}
use exynos.Scaler.Driver.{video_output, video_capture, mutex_create, malloc, Env}
use exynos.Scaler.Handle.{Image, Info, Handle, Op, call, set_handle, get_handle}
use exynos.Scaler.Settings.{ℤ, pos, negsuc}
use exynos.Scaler.Stop.{gsc_out_streamoff, gsc_out_stop, gsc_cap_streamoff, gsc_cap_stop}
use exynos.Scaler.M2m.{gsc_m2m_config, gsc_m2m_run, gsc_m2m_wait_frame_done}
use exynos.Scaler.Out.{gsc_out_config, gsc_out_run, gsc_out_wait_frame_done}
use exynos.Scaler.Cap.{gsc_cap_config, gsc_cap_run, gsc_cap_wait_frame_done}
use exynos.Scaler.Release.{gsc_out_destroy, gsc_cap_destroy, gsc_m2m_destroy}
use exynos.Scaler.Create.{gsc_out_create, gsc_cap_create, gsc_m2m_create, gsc_find_and_create}

-- What `memset` leaves.
abbrev pub no_image : Image
no_image = record {
  x = 0;
  y = 0;
  w = 0;
  h = 0;
  fw = 0;
  fh = 0;
  format = 0;
  yaddr = 0;
  uaddr = 0;
  vaddr = 0;
  rot = 0;
  cacheable = 0;
  drm_mode = 0;
  req_buf_cnt = 0;
  rgb_csc_type = 0;
  rgb_csc_eq_type = 0;
}

abbrev pub no_info : Info
no_info = record {
  width = 0;
  height = 0;
  crop_left = 0;
  crop_top = 0;
  crop_width = 0;
  crop_height = 0;
  v4l2_colorformat = unmatched;
  cacheable = 0;
  mode_drm = 0;
  rotation = 0;
  flip_horizontal = 0;
  flip_vertical = 0;
  addr0 = 0;
  addr1 = 0;
  addr2 = 0;
  stream_on = false;
  buf_type = video_output;
  num_planes = 0;
  buf_idx = 0;
  qbuf_cnt = 0;
}

abbrev pub blank : ℕ → Handle
blank mode = record {
  gsc_fd = none;
  src = no_info;
  dst = record no_info { buf_type = video_capture };
  src_img = no_image;
  dst_img = no_image;
  media = false;
  gsc_sd_entity = none;
  gsc_vd_entity = none;
  sink_sd_entity = none;
  gsc_mode = mode;
  out_mode = 0;
  fb_fd = some 0;
}

unfoldable pub gsc_create : Env → Op
gsc_create env = do
  call env malloc
  set_handle (λ h. blank 0)
  rescue (gsc_m2m_destroy env) (do call env mutex_create; gsc_find_and_create env)

-- One operation for each mode; any other mode does nothing.
unfoldable pub by_mode : ℕ → Op → Op → Op → Op
by_mode mode m2m out cap =
    if mode == 0 then m2m else if mode == 1 then out else if mode == 2 then cap else pure tt

unfoldable pub destroy_for : Env → ℕ → Op
destroy_for env mode =
    by_mode mode (gsc_m2m_destroy env) (gsc_out_destroy env) (gsc_cap_destroy env)

abbrev open_m2m : Env → ℕ → Op
open_m2m env dev = do
  fd ← gsc_m2m_create env (some dev)
  set_handle (λ h. record h { gsc_fd = some fd })

abbrev create_for : Env → ℕ → ℕ → ℤ → Op
create_for env dev mode out_mode = do
  call env malloc
  set_handle (λ h. blank mode)
  rescue (destroy_for env mode) (do
    call env mutex_create
    by_mode mode (open_m2m env dev) (gsc_out_create env dev out_mode) (gsc_cap_create env dev))

unfoldable pub gsc_create_exclusive : Env → ℤ → ℤ → ℤ → Op
gsc_create_exclusive env (negsuc n) mode out_mode = fail
gsc_create_exclusive env (pos dev) (negsuc n) out_mode = fail
gsc_create_exclusive env (pos dev) (pos mode) out_mode =
    if leb 4 dev || leb 4 mode then fail else create_for env dev mode out_mode

unfoldable pub gsc_destroy : Env → Op
gsc_destroy env = do h ← get_handle; destroy_for env h.gsc_mode

unfoldable pub gsc_config_exclusive : Env → Image → Image → Op
gsc_config_exclusive env src dst = do
  h ← get_handle
  by_mode h.gsc_mode (gsc_m2m_config env src dst) (gsc_out_config env src dst)
      (gsc_cap_config env src dst)

unfoldable pub gsc_run_exclusive : Env → Image → Image → Op
gsc_run_exclusive env src dst = do
  h ← get_handle
  by_mode h.gsc_mode (gsc_m2m_run env src dst) (gsc_out_run env src.yaddr src.uaddr src.vaddr)
      (gsc_cap_run env dst)

unfoldable pub gsc_wait_done : Env → Op
gsc_wait_done env = do
  h ← get_handle
  by_mode h.gsc_mode (gsc_m2m_wait_frame_done env) (gsc_out_wait_frame_done env)
      (gsc_cap_wait_frame_done env)

unfoldable pub gsc_stop_exclusive : Env → Op
gsc_stop_exclusive env = do
  h ← get_handle
  by_mode h.gsc_mode (pure tt) (gsc_out_stop env) (gsc_cap_stop env)

unfoldable pub gsc_just_stop : Env → Op
gsc_just_stop env = do
  h ← get_handle
  by_mode h.gsc_mode (pure tt) (gsc_out_streamoff env) (gsc_cap_streamoff env)
