-- ===== src/Decoder/Packing.antt =====
-- MFC_Decoder_Get_FramePackingInfo of ExynosVideoDecoder.c, which takes the fields of a frame packing message out of the
-- words of the driver. An int is the 32-bit word that holds it.
use exynos.Common.{ℕ, ◌+◌, ◌*◌, ◌<◌, Option, none, some, bit_and, ◌<<<◌, ◌>>>◌}
use exynos.Decoder.Setup.{SetupError, api_fail}

pub record FramePacking : Type 0 where
  pub available : ℕ
  pub arrangement_id : ℕ
  pub arrangement_cancel_flag : ℕ
  pub arrangement_type : ℕ
  pub quincunx_sampling_flag : ℕ
  pub content_interpretation_type : ℕ
  pub spatial_flipping_flag : ℕ
  pub frame0_flipped_flag : ℕ
  pub field_views_flag : ℕ
  pub current_frame_is_frame0_flag : ℕ
  pub frame0_grid_pos_x : ℕ
  pub frame0_grid_pos_y : ℕ
  pub frame1_grid_pos_x : ℕ
  pub frame1_grid_pos_y : ℕ

-- The values of the four controls.
pub record SeiWords : Type 0 where
  pub available : ℕ
  pub argmt_id : ℕ
  pub info : ℕ
  pub grid_pos : ℕ

unfoldable pub operate_bit : ℕ → ℕ → ℕ → ℕ
operate_bit x mask shift = bit_and x (mask <<< shift) >>> shift

abbrev pub no_packing : FramePacking
no_packing = record {
  available = 0;
  arrangement_id = 0;
  arrangement_cancel_flag = 0;
  arrangement_type = 0;
  quincunx_sampling_flag = 0;
  content_interpretation_type = 0;
  spatial_flipping_flag = 0;
  frame0_flipped_flag = 0;
  field_views_flag = 0;
  current_frame_is_frame0_flag = 0;
  frame0_grid_pos_x = 0;
  frame0_grid_pos_y = 0;
  frame1_grid_pos_x = 0;
  frame1_grid_pos_y = 0;
}

abbrev pub packing_of : SeiWords → FramePacking
packing_of w = record {
  available = w.available;
  arrangement_id = w.argmt_id;
  arrangement_cancel_flag = operate_bit w.info 0x1 0;
  arrangement_type = operate_bit w.info 0x3f 1;
  quincunx_sampling_flag = operate_bit w.info 0x1 8;
  content_interpretation_type = operate_bit w.info 0x3f 9;
  spatial_flipping_flag = operate_bit w.info 0x1 15;
  frame0_flipped_flag = operate_bit w.info 0x1 16;
  field_views_flag = operate_bit w.info 0x1 17;
  current_frame_is_frame0_flag = operate_bit w.info 0x1 18;
  frame0_grid_pos_x = operate_bit w.grid_pos 0xf 0;
  frame0_grid_pos_y = operate_bit w.grid_pos 0xf 4;
  frame1_grid_pos_x = operate_bit w.grid_pos 0xf 8;
  frame1_grid_pos_y = operate_bit w.grid_pos 0xf 12;
}

-- `none` is VIDEO_ERROR_NONE; the driver answers with the words, or refuses.
unfoldable pub get_frame_packing_info : Option SeiWords → Option SetupError × FramePacking
get_frame_packing_info none = (some api_fail, no_packing)
get_frame_packing_info (some w) = (none, packing_of w)

-- The words with the fields side by side, seven bits being left for the type of the arrangement.
unfoldable pub words_of : FramePacking → SeiWords
words_of f = record {
  available = f.available;
  argmt_id = f.arrangement_id;
  info =
      f.arrangement_cancel_flag
      + f.arrangement_type * 2
      + f.quincunx_sampling_flag * 256
      + f.content_interpretation_type * 512
      + f.spatial_flipping_flag * 32768
      + f.frame0_flipped_flag * 65536
      + f.field_views_flag * 131072
      + f.current_frame_is_frame0_flag * 262144;
  grid_pos =
      f.frame0_grid_pos_x
      + f.frame0_grid_pos_y * 16
      + f.frame1_grid_pos_x * 256
      + f.frame1_grid_pos_y * 4096;
}

-- Fields of the width of the message.
pub record Fits (f : FramePacking) : Type 0 where
  pub cancel : f.arrangement_cancel_flag < 2
  pub type : f.arrangement_type < 128
  pub quincunx : f.quincunx_sampling_flag < 2
  pub content : f.content_interpretation_type < 64
  pub spatial : f.spatial_flipping_flag < 2
  pub flipped : f.frame0_flipped_flag < 2
  pub views : f.field_views_flag < 2
  pub current : f.current_frame_is_frame0_flag < 2
  pub x0 : f.frame0_grid_pos_x < 16
  pub y0 : f.frame0_grid_pos_y < 16
  pub x1 : f.frame1_grid_pos_x < 16
  pub y1 : f.frame1_grid_pos_y < 16
