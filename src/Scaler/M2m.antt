-- ===== src/Scaler/M2m.antt =====
-- The memory-to-memory path of exynos_gscaler.c.
use exynos.Common.{
  ℕ, zero, suc, Bool, true, false, not, ◌&&◌, none, some, List, [], ◌∷◌, ◌==◌, if◌then◌else◌,
}
use exynos.Common.Act.{crash, pure, fail, ignore, ◌>>=◌, ◌>>◌}
use exynos.Scaler.Format.{gsc_get_plane_count, Sizes, gsc_get_plane_size, gsc_check_size}
use exynos.Scaler.Driver.{
  rotate, hflip, vflip, cacheable, use_sysmmu, csc_eq, csc_range, field_any, Plane, Request, s_ctrl,
  s_fmt, s_crop, reqbufs, qbuf, dqbuf, streamon, streamoff, Env,
}
use exynos.Scaler.Handle.{
  Image, Info, Gsc, Op, Side, src_side, dst_side, info_of, call, set_handle, set_side, get_handle,
}
use exynos.Scaler.Settings.{
  pos, gsc_set_format, gsc_set_rotation, gsc_set_addr, rotate_value_hal_to_gsc,
}

-- `!x` of C.
abbrev pub c_not : ℕ → ℕ
c_not x = if x == 0 then 1 else 0

abbrev pub call_ : Env → Request → Op
call_ env r = do call env r; pure tt

-- Turns the stream of one side off, if it is on.
unfoldable pub stream_down : Env → Side → Op
stream_down env side = do
  h ← get_handle
  let i = info_of side h
  if not i.stream_on then pure tt else do
    call env (streamoff h.gsc_fd i.buf_type)
    set_side side (λ j. record j { stream_on = false })

unfoldable pub stream_up : Env → Side → Op
stream_up env side = do
  h ← get_handle
  let i = info_of side h
  if i.stream_on then pure tt else do
    call env (streamon h.gsc_fd i.buf_type)
    set_side side (λ j. record j { stream_on = true })

-- The driver answers to `s_fmt` with the number of planes that it leaves in the format.
unfoldable pub set_format : Env → Side → Op
set_format env side = do
  h ← get_handle
  let i = info_of side h
  elim (gsc_get_plane_count i.v4l2_colorformat) [
    | none ↦ fail
    | some planes ↦ do
      stream_down env side
      call env (s_ctrl h.gsc_fd rotate i.rotation)
      call env (s_ctrl h.gsc_fd vflip i.flip_horizontal)
      call env (s_ctrl h.gsc_fd hflip i.flip_vertical)
      set_side side (λ j. record j { num_planes = planes })
      left ← call env (
          s_fmt h.gsc_fd i.buf_type record {
            width = i.width;
            height = i.height;
            pixelformat = i.v4l2_colorformat;
            field = field_any;
            num_planes = planes;
          })
      set_side side (λ j. record j { num_planes = left })
      call env (
          s_crop h.gsc_fd i.buf_type record {
            left = i.crop_left;
            top = i.crop_top;
            width = i.crop_width;
            height = i.crop_height;
          })
      call env (s_ctrl h.gsc_fd cacheable i.cacheable)
      call env (s_ctrl h.gsc_fd use_sysmmu (c_not i.mode_drm))
      call_ env (reqbufs h.gsc_fd i.buf_type 1)
  ]

abbrev pub plane_of : Bool → ℕ → ℕ → Plane
plane_of used addr size = record {
  userptr = addr;
  length = size;
  bytesused = if used then size else 0;
}

-- The first `n` planes of the array of three; a fourth is past its end.
unfoldable pub fill_planes : Bool → Info → Sizes → ℕ → Gsc (List Plane)
fill_planes used i z zero = pure []
fill_planes used i z (suc zero) = pure (plane_of used i.addr0 z.size0 ∷ [])
fill_planes used i z (suc (suc zero)) =
    pure (plane_of used i.addr0 z.size0 ∷ plane_of used i.addr1 z.size1 ∷ [])
fill_planes used i z (suc (suc (suc zero))) = pure (
    plane_of used i.addr0 z.size0
    ∷ plane_of used i.addr1 z.size1
    ∷ plane_of used i.addr2 z.size2
    ∷ [])
fill_planes used i z (suc (suc (suc (suc n)))) = λ s. (crash, s)

unfoldable pub set_addr : Env → Side → Op
set_addr env side = do
  h ← get_handle
  let i = info_of side h
  elim (gsc_get_plane_size env.align i.width i.height i.v4l2_colorformat) [
    | none ↦ fail
    | some z ↦ do
      planes ← fill_planes false i z i.num_planes
      call_ env (qbuf h.gsc_fd i.buf_type 0 planes)
  ]

abbrev pub size_ok : Info → Bool
size_ok i = gsc_check_size i.width i.height i.crop_width i.crop_height i.rotation

-- Any other value of a setting stands for its default, 0.
abbrev pub or_default : ℕ → ℕ
or_default x = if x == 1 then 1 else 0

abbrev pub set_dst_img : (Image → Image) → Op
set_dst_img f = set_handle (λ h. record h { dst_img = f h.dst_img })

unfoldable pub gsc_m2m_run_core : Env → Op
gsc_m2m_run_core env = do
  h ← get_handle
  if not (size_ok h.src && size_ok h.dst) then fail else do
    set_format env src_side
    set_format env dst_side
    set_addr env src_side
    set_addr env dst_side
    set_dst_img (λ i. record i { rgb_csc_eq_type = or_default i.rgb_csc_eq_type })
    call env (s_ctrl h.gsc_fd csc_eq (or_default h.dst_img.rgb_csc_eq_type))
    set_dst_img (λ i. record i { rgb_csc_type = or_default i.rgb_csc_type })
    call env (s_ctrl h.gsc_fd csc_range (or_default h.dst_img.rgb_csc_type))
    stream_up env src_side
    stream_up env dst_side

unfoldable pub gsc_m2m_wait_frame_done : Env → Op
gsc_m2m_wait_frame_done env = do
  h ← get_handle
  if not (h.src.stream_on && h.dst.stream_on) then fail else do
    call env (dqbuf h.gsc_fd h.src.buf_type)
    call env (dqbuf h.gsc_fd h.dst.buf_type)
    stream_down env src_side
    stream_down env dst_side
    call env (reqbufs h.gsc_fd h.src.buf_type 0)
    call_ env (reqbufs h.gsc_fd h.dst.buf_type 0)

unfoldable pub gsc_convert : Env → Op
gsc_convert env = do gsc_m2m_run_core env; gsc_m2m_wait_frame_done env

unfoldable pub gsc_m2m_config : Env → Image → Image → Op
gsc_m2m_config env src dst = do
  set_handle (λ h. record h { src_img = src; dst_img = dst })
  let r = rotate_value_hal_to_gsc env dst.rot
  ignore (gsc_set_rotation (pos r.rotate) r.hflip r.vflip)
  gsc_set_format src_side record {
    width = src.fw;
    height = src.fh;
    crop_left = src.x;
    crop_top = src.y;
    crop_width = src.w;
    crop_height = src.h;
    colorformat = env.v4l2_pix src.format;
    cacheable = src.cacheable;
    mode_drm = src.drm_mode;
  }
  gsc_set_format dst_side record {
    width = dst.fw;
    height = dst.fh;
    crop_left = dst.x;
    crop_top = dst.y;
    crop_width = dst.w;
    crop_height = dst.h;
    colorformat = env.v4l2_pix dst.format;
    cacheable = dst.cacheable;
    mode_drm = src.drm_mode;
  }

unfoldable pub gsc_m2m_run : Env → Image → Image → Op
gsc_m2m_run env src dst = do
  gsc_set_addr src_side src.yaddr src.uaddr src.vaddr
  gsc_set_addr dst_side dst.yaddr dst.uaddr dst.vaddr
  gsc_m2m_run_core env
