-- ===== src/Encoder/Params.antt =====
-- What ExynosVideoApi.h and the kernel give MFC_Encoder_Set_EncParam. A value of type int is the 32-bit word that holds
-- it. The union of the parameters of a codec is read as eCompressionFormat says, so the two are one type.
use exynos.Common.{ℕ}

pub data FrameSkip : Type 0 where
  skip_disabled skip_level_limit skip_buf_limit : FrameSkip

pub record CommonParam : Type 0 where
  pub source_width : ℕ
  pub source_height : ℕ
  pub idr_period : ℕ
  pub slice_mode : ℕ
  pub random_intra_mb_refresh : ℕ
  pub enable_frm_rate_control : ℕ
  pub enable_mb_rate_control : ℕ
  pub bitrate : ℕ
  pub frame_qp : ℕ
  pub frame_qp_p : ℕ
  pub qs_code_max : ℕ
  pub qs_code_min : ℕ
  pub cbr_period_rf : ℕ
  pub pad_control_on : ℕ
  pub luma_pad_val : ℕ
  pub cb_pad_val : ℕ
  pub cr_pad_val : ℕ
  pub frame_map : ℕ

pub record H264Param : Type 0 where
  pub profile_idc : ℕ
  pub level_idc : ℕ
  pub frame_qp_b : ℕ
  pub frame_rate : ℕ
  pub slice_argument : ℕ
  pub number_b_frames : ℕ
  pub number_reference_frames : ℕ
  pub number_ref_for_pframes : ℕ
  pub loop_filter_disable : ℕ
  pub loop_filter_alpha_c0_offset : ℕ
  pub loop_filter_beta_offset : ℕ
  pub symbol_mode : ℕ
  pub picture_interlace : ℕ
  pub transform_8x8_mode : ℕ
  pub dark_disable : ℕ
  pub smooth_disable : ℕ
  pub static_disable : ℕ
  pub activity_disable : ℕ

pub record Mpeg4Param : Type 0 where
  pub profile_idc : ℕ
  pub level_idc : ℕ
  pub frame_qp_b : ℕ
  pub time_increament_res : ℕ
  pub vop_time_increament : ℕ
  pub slice_argument : ℕ
  pub number_b_frames : ℕ
  pub disable_qpel_me : ℕ

pub record H263Param : Type 0 where
  pub frame_rate : ℕ

-- `other` is any format but the three.
pub data CodecParam : Type 0 where
  h264 : H264Param → CodecParam
  mpeg4 : Mpeg4Param → CodecParam
  h263 : H263Param → CodecParam
  other : CodecParam

pub record EncParam : Type 0 where
  pub frame_skip : FrameSkip
  pub common : CommonParam
  pub codec : CodecParam

-- The controls, without V4L2_CID_MPEG_. Their numbers are the kernel's.
pub data Cid : Type 0 where
  video_gop_size video_multi_slice_mode video_cyclic_intra_refresh_mb mfc51_video_padding
        video_frame_rc_enable video_mb_rc_enable video_bitrate mfc51_video_padding_yuv
        video_h264_i_frame_qp video_h264_p_frame_qp video_h264_max_qp video_h264_min_qp
        mfc51_video_rc_reaction_coeff video_h264_profile video_h264_level
        mfc51_video_h264_num_ref_pic_for_p video_b_frames video_h264_loop_filter_mode
        video_h264_loop_filter_alpha video_h264_loop_filter_beta video_h264_entropy_mode
        mfc51_video_h264_interlace video_h264_8x8_transform mfc51_video_h264_rc_frame_rate
        video_h264_b_frame_qp mfc51_video_h264_adaptive_rc_dark mfc51_video_h264_adaptive_rc_smooth
        mfc51_video_h264_adaptive_rc_static mfc51_video_h264_adaptive_rc_activity video_gop_closure
        video_h264_i_period video_vbv_size video_header_mode video_h264_vui_sar_enable
        video_h264_vui_sar_idc video_h264_vui_ext_sar_width video_h264_vui_ext_sar_height
        video_h264_hierarchical_coding video_h264_hierarchical_coding_type
        video_h264_hierarchical_coding_layer video_h264_hierarchical_coding_layer_qp
        video_h264_sei_frame_packing video_h264_sei_fp_current_frame_0
        video_h264_sei_fp_arrangement_type video_h264_fmo video_h264_fmo_map_type
        video_h264_fmo_slice_group video_h264_fmo_run_length video_h264_fmo_change_direction
        video_h264_fmo_change_rate video_h264_aso video_mpeg4_i_frame_qp video_mpeg4_p_frame_qp
        video_mpeg4_max_qp video_mpeg4_min_qp video_mpeg4_profile video_mpeg4_level video_mpeg4_qpel
        mfc51_video_mpeg4_vop_time_res mfc51_video_mpeg4_vop_frm_delta video_mpeg4_b_frame_qp
        mfc51_video_rc_fixed_target_bit video_h263_i_frame_qp video_h263_p_frame_qp
        video_h263_max_qp video_h263_min_qp mfc51_video_h263_rc_frame_rate video_multi_slice_max_mb
        video_multi_slice_max_bytes mfc51_video_frame_skip_mode video_h264_aso_slice_order :
      Cid

-- The values that the kernel has names for, without V4L2_MPEG_.
pub record Kernel : Type 0 where
  pub video_header_mode_separate : ℕ
  pub video_h264_vui_sar_idc_unspecified : ℕ
  pub video_h264_hierarchical_coding_b : ℕ
  pub video_h264_sei_fp_type_side_by_side : ℕ
  pub video_h264_fmo_map_type_interleaved_slices : ℕ
  pub video_h264_fmo_change_dir_right : ℕ
  pub mfc51_video_frame_skip_mode_level_limit : ℕ
  pub mfc51_video_frame_skip_mode_buf_limit : ℕ
  pub mfc51_video_frame_skip_mode_disabled : ℕ
