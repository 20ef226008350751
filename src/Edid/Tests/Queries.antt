-- ===== src/Edid/Tests/Queries.antt =====
-- The questions of libedid.c at the sample sink, and at a sink with a single byte of 3D data.
use exynos.Common.{◌≡◌, refl, false, fault, hang, Ensures, some, ◌∷◌, ◌++◌, tabulate, arith}
use exynos.Edid.Sample.{sink, base_block}
use exynos.Edid.Params
use exynos.Edid.Params.{VideoParameter, AudioParameter}
use exynos.Edid.State.{State, edid_valid}
use exynos.Edid.Tests.{loaded, loaded-IsValid}
use exynos.Edid.Quiet.Checks.{IsReady, Quiet, check_resolution-Quiet}
use exynos.Edid.Quiet.Checks.Entry.{queries-Quiet}
use exynos.Edid.Query.{check_resolution, is_timing_extension}
use exynos.Edid.Timings.{Timing, same_timing}
use exynos.Edid.Timings.Interlaced.{same_timing-1250}
use exynos.Edid.Tables.{params_of}
use exynos.Edid.Tables.Bounds.{BeyondTable, edid3d_format_support-overrun}
use exynos.Edid.Audio.{edid_audio_mode_support}
use exynos.Edid.Audio.Lpcm.{with_word_length, edid_audio_mode_support-word_length}
use exynos.Edid.Blocks.{get_vsdb_offset}
use exynos.Edid.Api.{
  edid_hdmi_mode_support, edid_color_depth_support, edid_color_space_support,
  edid_colorimetry_support, edid_get_cec_physical_address,
}
use exynos.Edid.Stereo.Loop.{edid3d_format_support, read_vsdb, read_flags, stereo_loop}
use exynos.Edid.Stereo.Loop.Endless.{HasLoneByte, stereo_loop-endless}

abbrev video : VideoParameter
video = record {
  mode = Params.hdmi;
  resolution = Params.v1280x720p_60hz;
  color_space = Params.ycbcr444;
  color_depth = Params.cd36;
  colorimetry = Params.extended_xvycc601;
  pixel_aspect_ratio = Params.ratio_16_9;
  hdmi_3d_format = Params.flat;
}

abbrev audio : AudioParameter
audio = record {
  format_code = Params.lpcm;
  channel_num = 8;
  sample_freq = Params.sf48khz;
  word_length = Params.word16;
}

loaded-IsReady : IsReady loaded
unfolding edid_valid
loaded-IsReady = record { valid = loaded-IsValid; present = refl }

queries-Quiet_example :
    Quiet loaded (edid_hdmi_mode_support sink video loaded)
    × Quiet loaded (edid_color_depth_support sink video loaded)
    × Quiet loaded (edid_color_space_support sink video loaded)
    × Quiet loaded (edid_colorimetry_support sink video loaded)
    × Quiet loaded (edid_audio_mode_support sink audio loaded)
    × Quiet loaded (edid_get_cec_physical_address sink loaded)
queries-Quiet_example = queries-Quiet sink loaded loaded-IsReady video audio

check_resolution-Quiet_example :
    Quiet loaded (check_resolution sink Params.v1280x720p_60hz Params.ratio_16_9 loaded)
check_resolution-Quiet_example =
    check_resolution-Quiet sink loaded loaded-IsReady Params.v1280x720p_60hz Params.ratio_16_9

edid_audio_mode_support-word_length_example :
    edid_audio_mode_support sink (with_word_length Params.word24 audio) loaded
    ≡ edid_audio_mode_support sink audio loaded
edid_audio_mode_support-word_length_example =
    edid_audio_mode_support-word_length sink Params.word24 audio loaded

edid3d_format_support-overrun_example :
    edid3d_format_support sink 9 (record video { resolution = Params.v1280x720p_30hz }) loaded
    ≡ fault
edid3d_format_support-overrun_example =
    edid3d_format_support-overrun sink 9 (record video { resolution = Params.v1280x720p_30hz })
      loaded BeyondTable.beyond_720p_30

abbrev field_1250 : Timing
field_1250 = record { pixelclock = 7200; hblank = 384; hactive = 1920; vblank = 85; vactive = 540 }

same_timing-1250_example :
    Ensures (λ p. same_timing p field_1250 ≡ false) (params_of Params.v1920x1080i_50hz_1250)
same_timing-1250_example = same_timing-1250 field_1250 refl

-- An extension with one HDMI VSDB, whose byte of lengths is 1.
abbrev lone : State
lone = record loaded {
  bytes = some (
      base_block
      ++ (2
          ∷ 3
          ∷ 16
          ∷ 0
          ∷ 0x6b
          ∷ 3
          ∷ 12
          ∷ 0
          ∷ 16
          ∷ 0
          ∷ 0
          ∷ 0
          ∷ 0
          ∷ 0
          ∷ 1
          ∷ 0
          ∷ tabulate 112 0 (λ _. 0)));
}

lone-HasLoneByte : HasLoneByte sink lone 132 128 11 4 0
unfolding is_timing_extension get_vsdb_offset read_vsdb read_flags
lone-HasLoneByte = record {
  extension = omega arith;
  timing = refl;
  offset = refl;
  positive = omega arith;
  fields = refl;
  flags = refl;
  long = omega arith;
}

stereo_loop-endless_example : stereo_loop sink video Params.tb 4 1000 1 lone ≡ hang
stereo_loop-endless_example =
    stereo_loop-endless sink video Params.tb 4 lone 132 128 11 4 0 1000 lone-HasLoneByte
      (λ e. absurd (omega (arith, e)))
