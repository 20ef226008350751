-- ===== src/Decoder/Settings.antt =====
-- The settings of ExynosVideoDecoder.c that are one control each. A value of type int is the 32-bit word that holds it.
use exynos.Common.{ℕ, Bool, true, Option, none, some, if◌then◌else◌}
use exynos.Decoder.Setup.{Context, SetupError, api_fail}

-- The identifiers of the decoder and the encoder, without V4L2_CID_, MPEG_ and MFC51_. Their numbers are the kernel's.
pub data Control : Type 0 where
  video_frame_tag min_buffers_for_capture decoder_h264_display_delay packed_pb
        decoder_mpeg4_deblock_filter decoder_slice_interface h264_sei_frame_packing cacheable
        force_frame_type frame_rate_ch bit_rate_ch frame_skip_mode h264_i_period :
      Control

-- The driver: whether it takes a value, and the value that it tells.
pub record Controls : Type 0 where
  pub s_ctrl : Control → ℕ → Bool
  pub g_ctrl : Control → Option ℕ

-- `none` is VIDEO_ERROR_NONE.
abbrev pub set_control : Controls → Control → ℕ → Option SetupError
set_control driver c v = if driver.s_ctrl c v then none else some api_fail

module _ (driver : Controls) where
  unfoldable pub set_picture_tag : ℕ → Option SetupError
  set_picture_tag = set_control driver video_frame_tag

  -- `none` is -1.
  unfoldable pub get_picture_tag : Option ℕ
  get_picture_tag = driver.g_ctrl video_frame_tag

  unfoldable pub get_actual_buffer_count : Option ℕ
  get_actual_buffer_count = driver.g_ctrl min_buffers_for_capture

  unfoldable pub set_display_delay : ℕ → Option SetupError
  set_display_delay = set_control driver decoder_h264_display_delay

  unfoldable pub enable_packed_pb : Option SetupError
  enable_packed_pb = set_control driver packed_pb 1

  unfoldable pub enable_loop_filter : Option SetupError
  enable_loop_filter = set_control driver decoder_mpeg4_deblock_filter 1

  unfoldable pub enable_slice_mode : Option SetupError
  enable_slice_mode = set_control driver decoder_slice_interface 1

  unfoldable pub enable_sei_parsing : Option SetupError
  enable_sei_parsing = set_control driver h264_sei_frame_packing 1

  unfoldable pub enable_cacheable_source : Option SetupError
  enable_cacheable_source = set_control driver cacheable 2

  unfoldable pub enable_cacheable_target : Option SetupError
  enable_cacheable_target = set_control driver cacheable 1

-- A port whose memory is the client's.
unfoldable pub set_shareable : Context → Context
set_shareable x = record x { shared = true }
