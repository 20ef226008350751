-- ===== src/Encoder/Geometry.antt =====
-- The geometry of the buffers, and the settings that are one control each, in ExynosVideoEncoder.c.
use exynos.Common.{ℕ, ◌≡◌, refl, Option, none, some}
use exynos.Decoder.Setup.{SetupError, api_fail}
use exynos.Decoder.Settings.{
  Controls, set_control, video_frame_tag, force_frame_type, frame_rate_ch, bit_rate_ch,
  frame_skip_mode, h264_i_period, cacheable,
}
use exynos.Decoder.Geometry.{
  MplaneFormat, Geometry, PortFormat, SetFormat, color_to_pixel, no_format, set_format,
  set_geometry_inbuf,
}

unfoldable pub set_source_geometry :
    SetFormat → Geometry → PortFormat → Option SetupError × PortFormat
set_source_geometry driver conf =
    set_format driver
      (record no_format {
        pixelformat = some (color_to_pixel conf.color_format);
        width = conf.frame_width;
        height = conf.frame_height;
        num_planes = 2;
      })
      conf

-- The first of the two writes to nFrameHeight is of the width.
unfoldable pub get_source_geometry : Option MplaneFormat → Geometry → Option SetupError × Geometry
get_source_geometry none conf = (some api_fail, conf)
get_source_geometry (some f) conf =
    let first = record conf { frame_height = f.width } in
    (none, record first { frame_height = f.height; size_image = f.sizeimage })

unfoldable pub set_encoded_geometry :
    SetFormat → Geometry → PortFormat → Option SetupError × PortFormat
set_encoded_geometry = set_geometry_inbuf

unfoldable pub get_encoded_geometry : Option MplaneFormat → Geometry → Option SetupError × Geometry
get_encoded_geometry none conf = (some api_fail, conf)
get_encoded_geometry (some f) conf = (none, record conf { size_image = f.sizeimage })

-- Whatever geometry the client has set and the driver has taken, MFC_Encoder_Get_Geometry_Inbuf leaves the client's width
-- as it was.
pub get_source_geometry-width :
    (driver : SetFormat) (conf other : Geometry) (p : PortFormat)
    → (get_source_geometry (some (set_source_geometry driver conf p).1.format) other).1.frame_width
      ≡ other.frame_width
unfolding get_source_geometry
get_source_geometry-width driver conf other p = refl

module _ (driver : Controls) where
  unfoldable pub set_frame_tag : ℕ → Option SetupError
  set_frame_tag = set_control driver video_frame_tag

  -- `none` is -1.
  unfoldable pub get_frame_tag : Option ℕ
  get_frame_tag = driver.g_ctrl video_frame_tag

  unfoldable pub set_frame_type : ℕ → Option SetupError
  set_frame_type = set_control driver force_frame_type

  unfoldable pub set_frame_rate : ℕ → Option SetupError
  set_frame_rate = set_control driver frame_rate_ch

  unfoldable pub set_bit_rate : ℕ → Option SetupError
  set_bit_rate = set_control driver bit_rate_ch

  unfoldable pub set_frame_skip : ℕ → Option SetupError
  set_frame_skip = set_control driver frame_skip_mode

  unfoldable pub set_idr_period : ℕ → Option SetupError
  set_idr_period = set_control driver h264_i_period

  unfoldable pub enable_cacheable_inbuf : Option SetupError
  enable_cacheable_inbuf = set_control driver cacheable 2

  unfoldable pub enable_cacheable_outbuf : Option SetupError
  enable_cacheable_outbuf = set_control driver cacheable 1
