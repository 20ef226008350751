-- ===== src/Decoder/Geometry.antt =====
-- The formats and the geometry of the buffers in ExynosVideoDecoder.c. ExynosVideoEncoder.c has the first two tables too.
use exynos.Common.{ℕ, ◌≡◌, refl, Bool, true, false, Option, none, some}
use exynos.Decoder.Setup.{SetupError, api_fail}

pub data CodingType : Type 0 where
  coding_unknown mpeg2 h263 mpeg4 vc1 vc1_rcv avc mvc vp8 coding_reserved : CodingType

pub data ColorFormat : Type 0 where
  color_unknown nv12 nv21 nv12_tiled color_reserved : ColorFormat

-- The formats V4L2_PIX_FMT_ that the code names, and any other.
pub data PixelFormat : Type 0 where
  pix_h264 pix_mpeg4 pix_vp8 pix_h263 pix_vc1_annex_g pix_vc1_annex_l pix_mpeg2 pix_nv12mt_16x16
        pix_nv12mt pix_nv21m pix_nv12m pix_other :
      PixelFormat

unfoldable pub coding_to_pixel : CodingType → PixelFormat
coding_to_pixel mpeg4 = pix_mpeg4
coding_to_pixel vp8 = pix_vp8
coding_to_pixel h263 = pix_h263
coding_to_pixel vc1 = pix_vc1_annex_g
coding_to_pixel vc1_rcv = pix_vc1_annex_l
coding_to_pixel mpeg2 = pix_mpeg2
coding_to_pixel _ = pix_h264

unfoldable pub color_to_pixel : ColorFormat → PixelFormat
color_to_pixel nv12_tiled = pix_nv12mt_16x16
color_to_pixel nv21 = pix_nv21m
color_to_pixel _ = pix_nv12m

unfoldable pub pixel_to_color : PixelFormat → ColorFormat
pixel_to_color pix_nv12m = nv12
pixel_to_color pix_nv21m = nv21
pixel_to_color _ = nv12_tiled

pub record CropRect : Type 0 where
  pub top : ℕ
  pub left : ℕ
  pub width : ℕ
  pub height : ℕ

pub record Geometry : Type 0 where
  pub frame_width : ℕ
  pub frame_height : ℕ
  pub size_image : ℕ
  pub crop_rect : CropRect
  pub compression_format : CodingType
  pub color_format : ColorFormat

-- `struct v4l2_pix_format_mplane`, as far as it is used; the size is that of the first plane. `none` is 0.
pub record MplaneFormat : Type 0 where
  pub pixelformat : Option PixelFormat
  pub width : ℕ
  pub height : ℕ
  pub num_planes : ℕ
  pub sizeimage : ℕ

-- What a driver sets when it is asked for a format, if it takes it.
abbrev pub SetFormat : Type 0
SetFormat = MplaneFormat → Option MplaneFormat

abbrev pub no_format : MplaneFormat
no_format = record { pixelformat = none; width = 0; height = 0; num_planes = 0; sizeimage = 0 }

-- A port: the geometry that the context keeps, and the format that the driver has.
pub record PortFormat : Type 0 where
  pub geometry : Geometry
  pub format : MplaneFormat

-- `none` is VIDEO_ERROR_NONE.
abbrev pub take_format :
    Option MplaneFormat → Geometry → PortFormat → Option SetupError × PortFormat
take_format none conf p = (some api_fail, p)
take_format (some f) conf p = (none, record { geometry = conf; format = f })

abbrev pub set_format :
    SetFormat → MplaneFormat → Geometry → PortFormat → Option SetupError × PortFormat
set_format driver asked conf p = take_format (driver asked) conf p

unfoldable pub set_geometry_inbuf :
    SetFormat → Geometry → PortFormat → Option SetupError × PortFormat
set_geometry_inbuf driver conf =
    set_format driver
      (record no_format {
        pixelformat = some (coding_to_pixel conf.compression_format);
        sizeimage = conf.size_image;
      })
      conf

unfoldable pub set_geometry_outbuf :
    SetFormat → Geometry → PortFormat → Option SetupError × PortFormat
set_geometry_outbuf driver conf =
    set_format driver (record no_format { pixelformat = some (color_to_pixel conf.color_format) })
      conf

abbrev pub color_of : Option PixelFormat → ColorFormat
color_of none = pixel_to_color pix_other
color_of (some f) = pixel_to_color f

-- What the client is told; the driver answers with its format and its rectangle, or refuses.
unfoldable pub get_geometry_outbuf :
    Option MplaneFormat → Option CropRect → Geometry → Option SetupError × Geometry
get_geometry_outbuf none crop conf = (some api_fail, conf)
get_geometry_outbuf (some f) none conf = (some api_fail, conf)
get_geometry_outbuf (some f) (some c) conf = (
  none,
  record conf {
    frame_width = f.width;
    frame_height = f.height;
    color_format = color_of f.pixelformat;
    crop_rect = c;
  },
)

-- The formats of colour that the code names.
abbrev pub known_color : ColorFormat → Bool
known_color nv12 = true
known_color nv21 = true
known_color nv12_tiled = true
known_color _ = false

color_roundtrip : (c : ColorFormat) → known_color c ≡ true → pixel_to_color (color_to_pixel c) ≡ c
unfolding color_to_pixel pixel_to_color
color_roundtrip nv12 h = refl
color_roundtrip nv21 h = refl
color_roundtrip nv12_tiled h = refl
color_roundtrip color_unknown h = absurd (cc h)
color_roundtrip color_reserved h = absurd (cc h)

-- If the driver keeps the format of the pixels, the client is told the colour format that it has set.
pub get_geometry_outbuf-set_geometry_outbuf :
    (driver : SetFormat) (conf other : Geometry) (p : PortFormat) (f : MplaneFormat)
    (crop : CropRect)
    → driver (record no_format { pixelformat = some (color_to_pixel conf.color_format) }) ≡ some f
    → f.pixelformat ≡ some (color_to_pixel conf.color_format)
    → known_color conf.color_format ≡ true
    → (let set = set_geometry_outbuf driver conf p in
        let told = get_geometry_outbuf (some set.1.format) (some crop) other in
        told.1.color_format ≡ conf.color_format)
unfolding get_geometry_outbuf set_geometry_outbuf
get_geometry_outbuf-set_geometry_outbuf driver conf other p f crop taken kept known =
    rw (taken, kept) (color_roundtrip conf.color_format known)
