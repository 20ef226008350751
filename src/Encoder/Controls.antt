-- ===== src/Encoder/Controls.antt =====
-- The controls that MFC_Encoder_Set_EncParam of ExynosVideoEncoder.c writes to its array ext_ctrl.
use exynos.Common.{ℕ, suc, zero, ◌+◌, List, [], ◌∷◌, bit_or, ◌<<<◌, u32, ◌==◌, if◌then◌else◌}
use exynos.Encoder.Params.{
  Cid, CommonParam, FrameSkip, H263Param, H264Param, Kernel, Mpeg4Param, skip_level_limit,
  skip_buf_limit, skip_disabled, video_gop_size, video_multi_slice_mode,
  video_cyclic_intra_refresh_mb, mfc51_video_padding, video_frame_rc_enable, video_mb_rc_enable,
  video_bitrate, mfc51_video_padding_yuv, video_h264_i_frame_qp, video_h264_p_frame_qp,
  video_h264_max_qp, video_h264_min_qp, mfc51_video_rc_reaction_coeff, video_h264_profile,
  video_h264_level, mfc51_video_h264_num_ref_pic_for_p, video_b_frames, video_h264_loop_filter_mode,
  video_h264_loop_filter_alpha, video_h264_loop_filter_beta, video_h264_entropy_mode,
  mfc51_video_h264_interlace, video_h264_8x8_transform, mfc51_video_h264_rc_frame_rate,
  video_h264_b_frame_qp, mfc51_video_h264_adaptive_rc_dark, mfc51_video_h264_adaptive_rc_smooth,
  mfc51_video_h264_adaptive_rc_static, mfc51_video_h264_adaptive_rc_activity, video_gop_closure,
  video_h264_i_period, video_vbv_size, video_header_mode, video_h264_vui_sar_enable,
  video_h264_vui_sar_idc, video_h264_vui_ext_sar_width, video_h264_vui_ext_sar_height,
  video_h264_hierarchical_coding, video_h264_hierarchical_coding_type,
  video_h264_hierarchical_coding_layer, video_h264_hierarchical_coding_layer_qp,
  video_h264_sei_frame_packing, video_h264_sei_fp_current_frame_0,
  video_h264_sei_fp_arrangement_type, video_h264_fmo, video_h264_fmo_map_type,
  video_h264_fmo_slice_group, video_h264_fmo_run_length, video_h264_fmo_change_direction,
  video_h264_fmo_change_rate, video_h264_aso, video_mpeg4_i_frame_qp, video_mpeg4_p_frame_qp,
  video_mpeg4_max_qp, video_mpeg4_min_qp, video_mpeg4_profile, video_mpeg4_level, video_mpeg4_qpel,
  mfc51_video_mpeg4_vop_time_res, mfc51_video_mpeg4_vop_frm_delta, video_mpeg4_b_frame_qp,
  mfc51_video_rc_fixed_target_bit, video_h263_i_frame_qp, video_h263_p_frame_qp, video_h263_max_qp,
  video_h263_min_qp, mfc51_video_h263_rc_frame_rate, video_multi_slice_max_mb,
  video_multi_slice_max_bytes, mfc51_video_frame_skip_mode, video_h264_aso_slice_order,
}

-- A write to `ext_ctrl[index]`.
pub record Entry : Type 0 where
  pub index : ℕ
  pub id : Cid
  pub value : ℕ

abbrev pub entry : ℕ → Cid → ℕ → Entry
entry i c v = record { index = i; id = c; value = v }

infixr 60 ◌+++◌
abbrev pub ◌+++◌ : List Entry → List Entry → List Entry
[] +++ ws = ws
(v ∷ vs) +++ ws = v ∷ (vs +++ ws)

abbrev pub common_entries : CommonParam → List Entry
common_entries c =
    let pad =
      bit_or (bit_or c.cr_pad_val (u32 (c.cb_pad_val <<< 8))) (u32 (c.luma_pad_val <<< 16)) in
    entry 0 video_gop_size c.idr_period
    ∷ entry 1 video_multi_slice_mode c.slice_mode
    ∷ entry 2 video_cyclic_intra_refresh_mb c.random_intra_mb_refresh
    ∷ entry 3 mfc51_video_padding c.pad_control_on
    ∷ entry 4 mfc51_video_padding_yuv pad
    ∷ entry 5 video_frame_rc_enable c.enable_frm_rate_control
    ∷ entry 6 video_mb_rc_enable c.enable_mb_rate_control
    ∷ entry 7 video_bitrate (if c.bitrate == 0 then 1 else c.bitrate)
    ∷ []

-- The entries 13 and 14, which any other mode leaves as they are.
unfoldable pub slice_entries : ℕ → ℕ → List Entry
slice_entries mode argument =
    let write = λ (mb bytes : ℕ).
      entry 13 video_multi_slice_max_mb mb ∷ entry 14 video_multi_slice_max_bytes bytes ∷ [] in
    if mode == 0
    then write 1 2800
    else if mode == 1
    then write argument 2800
    else if mode == 3
    then write 1 argument
    else []

abbrev pub skip_value : Kernel → FrameSkip → ℕ
skip_value k skip_level_limit = k.mfc51_video_frame_skip_mode_level_limit
skip_value k skip_buf_limit = k.mfc51_video_frame_skip_mode_buf_limit
skip_value k skip_disabled = k.mfc51_video_frame_skip_mode_disabled

abbrev pub frame_skip_entry : Kernel → ℕ → FrameSkip → Entry
frame_skip_entry k i skip = entry i mfc51_video_frame_skip_mode (skip_value k skip)

abbrev pub h264_qp : CommonParam → List Entry
h264_qp c =
    entry 8 video_h264_i_frame_qp c.frame_qp
    ∷ entry 9 video_h264_p_frame_qp c.frame_qp_p
    ∷ entry 10 video_h264_max_qp c.qs_code_max
    ∷ entry 11 video_h264_min_qp c.qs_code_min
    ∷ entry 12 mfc51_video_rc_reaction_coeff c.cbr_period_rf
    ∷ []

abbrev pub h264_specific : H264Param → List Entry
h264_specific p =
    entry 15 video_h264_profile p.profile_idc
    ∷ entry 16 video_h264_level p.level_idc
    ∷ entry 17 mfc51_video_h264_num_ref_pic_for_p p.number_ref_for_pframes
    ∷ entry 18 video_b_frames p.number_b_frames
    ∷ entry 19 video_h264_loop_filter_mode p.loop_filter_disable
    ∷ entry 20 video_h264_loop_filter_alpha p.loop_filter_alpha_c0_offset
    ∷ entry 21 video_h264_loop_filter_beta p.loop_filter_beta_offset
    ∷ entry 22 video_h264_entropy_mode p.symbol_mode
    ∷ entry 23 mfc51_video_h264_interlace p.picture_interlace
    ∷ entry 24 video_h264_8x8_transform p.transform_8x8_mode
    ∷ entry 25 mfc51_video_h264_rc_frame_rate p.frame_rate
    ∷ entry 26 video_h264_b_frame_qp p.frame_qp_b
    ∷ entry 27 mfc51_video_h264_adaptive_rc_dark p.dark_disable
    ∷ entry 28 mfc51_video_h264_adaptive_rc_smooth p.smooth_disable
    ∷ entry 29 mfc51_video_h264_adaptive_rc_static p.static_disable
    ∷ entry 30 mfc51_video_h264_adaptive_rc_activity p.activity_disable
    ∷ []

abbrev pub h264_fixed : Kernel → List Entry
h264_fixed k =
    entry 31 video_gop_closure 1
    ∷ entry 32 video_h264_i_period 10
    ∷ entry 33 video_vbv_size 0
    ∷ entry 34 video_header_mode k.video_header_mode_separate
    ∷ entry 35 video_h264_vui_sar_enable 0
    ∷ entry 36 video_h264_vui_sar_idc k.video_h264_vui_sar_idc_unspecified
    ∷ entry 37 video_h264_vui_ext_sar_width 0
    ∷ entry 38 video_h264_vui_ext_sar_height 0
    ∷ []

abbrev pub h264_unsupported : Kernel → List Entry
h264_unsupported k =
    entry 40 video_h264_hierarchical_coding 0
    ∷ entry 41 video_h264_hierarchical_coding_type k.video_h264_hierarchical_coding_b
    ∷ entry 42 video_h264_hierarchical_coding_layer 3
    ∷ entry 43 video_h264_hierarchical_coding_layer_qp (u32 (0 <<< 16))
    ∷ entry 44 video_h264_hierarchical_coding_layer_qp (u32 (1 <<< 16))
    ∷ entry 45 video_h264_hierarchical_coding_layer_qp (u32 (2 <<< 16))
    ∷ entry 46 video_h264_sei_frame_packing 0
    ∷ entry 47 video_h264_sei_fp_current_frame_0 0
    ∷ entry 48 video_h264_sei_fp_arrangement_type k.video_h264_sei_fp_type_side_by_side
    ∷ entry 49 video_h264_fmo 0
    ∷ entry 50 video_h264_fmo_map_type k.video_h264_fmo_map_type_interleaved_slices
    ∷ entry 51 video_h264_fmo_slice_group 4
    ∷ entry 52 video_h264_fmo_run_length (u32 (0 <<< 30))
    ∷ entry 53 video_h264_fmo_run_length (u32 (1 <<< 30))
    ∷ entry 54 video_h264_fmo_run_length (u32 (2 <<< 30))
    ∷ entry 55 video_h264_fmo_run_length (u32 (3 <<< 30))
    ∷ entry 56 video_h264_fmo_change_direction k.video_h264_fmo_change_dir_right
    ∷ entry 57 video_h264_fmo_change_rate 0
    ∷ entry 58 video_h264_aso 0
    ∷ []

-- The rounds of the last loop that are left.
unfoldable pub aso_entries : ℕ → ℕ → List Entry
aso_entries zero i = []
aso_entries (suc left) i =
    entry (59 + i) video_h264_aso_slice_order (u32 (i <<< 16)) ∷ aso_entries left (i + 1)

abbrev pub h264_entries : Kernel → FrameSkip → CommonParam → H264Param → List Entry
h264_entries k skip c p =
    h264_qp c
    +++ slice_entries c.slice_mode p.slice_argument
    +++ h264_specific p
    +++ h264_fixed k
    +++ frame_skip_entry k 39 skip ∷ h264_unsupported k
    +++ aso_entries 32 0

abbrev pub mpeg4_qp : CommonParam → List Entry
mpeg4_qp c =
    entry 8 video_mpeg4_i_frame_qp c.frame_qp
    ∷ entry 9 video_mpeg4_p_frame_qp c.frame_qp_p
    ∷ entry 10 video_mpeg4_max_qp c.qs_code_max
    ∷ entry 11 video_mpeg4_min_qp c.qs_code_min
    ∷ entry 12 mfc51_video_rc_reaction_coeff c.cbr_period_rf
    ∷ []

abbrev pub mpeg4_specific : Kernel → Mpeg4Param → List Entry
mpeg4_specific k p =
    entry 15 video_mpeg4_profile p.profile_idc
    ∷ entry 16 video_mpeg4_level p.level_idc
    ∷ entry 17 video_mpeg4_qpel p.disable_qpel_me
    ∷ entry 18 video_b_frames p.number_b_frames
    ∷ entry 19 mfc51_video_mpeg4_vop_time_res p.time_increament_res
    ∷ entry 20 mfc51_video_mpeg4_vop_frm_delta p.vop_time_increament
    ∷ entry 21 video_mpeg4_b_frame_qp p.frame_qp_b
    ∷ entry 22 video_vbv_size 0
    ∷ entry 23 video_header_mode k.video_header_mode_separate
    ∷ entry 24 mfc51_video_rc_fixed_target_bit 1
    ∷ []

abbrev pub mpeg4_entries : Kernel → FrameSkip → CommonParam → Mpeg4Param → List Entry
mpeg4_entries k skip c p =
    mpeg4_qp c
    +++ slice_entries c.slice_mode p.slice_argument
    +++ mpeg4_specific k p
    +++ frame_skip_entry k 25 skip ∷ []

abbrev pub h263_specific : Kernel → CommonParam → H263Param → List Entry
h263_specific k c p =
    entry 8 video_h263_i_frame_qp c.frame_qp
    ∷ entry 9 video_h263_p_frame_qp c.frame_qp_p
    ∷ entry 10 video_h263_max_qp c.qs_code_max
    ∷ entry 11 video_h263_min_qp c.qs_code_min
    ∷ entry 12 mfc51_video_rc_reaction_coeff c.cbr_period_rf
    ∷ entry 13 mfc51_video_h263_rc_frame_rate p.frame_rate
    ∷ entry 14 video_vbv_size 0
    ∷ entry 15 video_header_mode k.video_header_mode_separate
    ∷ entry 16 mfc51_video_rc_fixed_target_bit 1
    ∷ []

abbrev pub h263_entries : Kernel → FrameSkip → CommonParam → H263Param → List Entry
h263_entries k skip c p = h263_specific k c p +++ frame_skip_entry k 17 skip ∷ []
