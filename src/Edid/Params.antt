-- ===== src/Edid/Params.antt =====
-- The parameter types of libedid/video.h and libedid/audio.h that libedid.c looks at.
use exynos.Common.{ℕ}

-- `enum VideoFormat`, in order; the value of a constructor is `format_index`.
pub data VideoFormat : Type 0 where
  v640x480p_60hz v720x480p_60hz v1280x720p_60hz v1920x1080i_60hz v720x480i_60hz : VideoFormat
  v720x240p_60hz v2880x480i_60hz v2880x240p_60hz v1440x480p_60hz v1920x1080p_60hz : VideoFormat
  v720x576p_50hz v1280x720p_50hz v1920x1080i_50hz v720x576i_50hz v720x288p_50hz : VideoFormat
  v2880x576i_50hz v2880x288p_50hz v1440x576p_50hz v1920x1080p_50hz v1920x1080p_24hz : VideoFormat
  v1920x1080p_25hz v1920x1080p_30hz v2880x480p_60hz v2880x576p_50hz : VideoFormat
  v1920x1080i_50hz_1250 v1920x1080i_100hz v1280x720p_100hz v720x576p_100hz : VideoFormat
  v720x576i_100hz v1920x1080i_120hz v1280x720p_120hz v720x480p_120hz v720x480i_120hz : VideoFormat
  v720x576p_200hz v720x576i_200hz v720x480p_240hz v720x480i_240hz v1280x720p_24hz : VideoFormat
  v1280x720p_25hz v1280x720p_30hz v1920x1080p_120hz v1920x1080p_100hz v4kx2k_30hz : VideoFormat

abbrev pub format_index : VideoFormat → ℕ
format_index v640x480p_60hz = 0
format_index v720x480p_60hz = 1
format_index v1280x720p_60hz = 2
format_index v1920x1080i_60hz = 3
format_index v720x480i_60hz = 4
format_index v720x240p_60hz = 5
format_index v2880x480i_60hz = 6
format_index v2880x240p_60hz = 7
format_index v1440x480p_60hz = 8
format_index v1920x1080p_60hz = 9
format_index v720x576p_50hz = 10
format_index v1280x720p_50hz = 11
format_index v1920x1080i_50hz = 12
format_index v720x576i_50hz = 13
format_index v720x288p_50hz = 14
format_index v2880x576i_50hz = 15
format_index v2880x288p_50hz = 16
format_index v1440x576p_50hz = 17
format_index v1920x1080p_50hz = 18
format_index v1920x1080p_24hz = 19
format_index v1920x1080p_25hz = 20
format_index v1920x1080p_30hz = 21
format_index v2880x480p_60hz = 22
format_index v2880x576p_50hz = 23
format_index v1920x1080i_50hz_1250 = 24
format_index v1920x1080i_100hz = 25
format_index v1280x720p_100hz = 26
format_index v720x576p_100hz = 27
format_index v720x576i_100hz = 28
format_index v1920x1080i_120hz = 29
format_index v1280x720p_120hz = 30
format_index v720x480p_120hz = 31
format_index v720x480i_120hz = 32
format_index v720x576p_200hz = 33
format_index v720x576i_200hz = 34
format_index v720x480p_240hz = 35
format_index v720x480i_240hz = 36
format_index v1280x720p_24hz = 37
format_index v1280x720p_25hz = 38
format_index v1280x720p_30hz = 39
format_index v1920x1080p_120hz = 40
format_index v1920x1080p_100hz = 41
format_index v4kx2k_30hz = 42

pub data ColorSpace : Type 0 where
  rgb ycbcr444 ycbcr422 : ColorSpace

pub data ColorDepth : Type 0 where
  cd36 cd30 cd24 : ColorDepth

pub data HdmiMode : Type 0 where
  dvi hdmi : HdmiMode

pub data Colorimetry : Type 0 where
  no_data itu601 itu709 extended_xvycc601 extended_xvycc709 : Colorimetry

pub data PixelAspectRatio : Type 0 where
  as_picture ratio_4_3 ratio_16_9 : PixelAspectRatio

-- The values of `enum HDMI3DVideoStructure` from 0 on.
pub data StereoFormat : Type 0 where
  fp fa la ssf ld ldgfx tb hdmi_vic ssh : StereoFormat

abbrev pub stereo_index : StereoFormat → ℕ
stereo_index fp = 0
stereo_index fa = 1
stereo_index la = 2
stereo_index ssf = 3
stereo_index ld = 4
stereo_index ldgfx = 5
stereo_index tb = 6
stereo_index hdmi_vic = 7
stereo_index ssh = 8

-- `enum HDMI3DVideoStructure`: `flat` is HDMI_2D_VIDEO_FORMAT, which is -1.
pub data VideoStructure : Type 0 where
  flat : VideoStructure
  stereo : StereoFormat → VideoStructure

-- `struct HDMIVideoParameter` without `videoSrc`, which libedid.c does not read.
pub record VideoParameter : Type 0 where
  pub mode : HdmiMode
  pub resolution : VideoFormat
  pub color_space : ColorSpace
  pub color_depth : ColorDepth
  pub colorimetry : Colorimetry
  pub pixel_aspect_ratio : PixelAspectRatio
  pub hdmi_3d_format : VideoStructure

pub data AudioFormat : Type 0 where
  lpcm ac3 mpeg1 mp3 mpeg2 aac dts : AudioFormat
  atrac dsd dolby_digital_plus dts_hd mat dst wam_pro : AudioFormat

abbrev pub audio_code : AudioFormat → ℕ
audio_code lpcm = 1
audio_code ac3 = 2
audio_code mpeg1 = 3
audio_code mp3 = 4
audio_code mpeg2 = 5
audio_code aac = 6
audio_code dts = 7
audio_code atrac = 8
audio_code dsd = 9
audio_code dolby_digital_plus = 10
audio_code dts_hd = 11
audio_code mat = 12
audio_code dst = 13
audio_code wam_pro = 14

pub data WordLen : Type 0 where
  word16 word17 word18 word19 word20 word21 word22 word23 word24 : WordLen

pub data SamplingFreq : Type 0 where
  sf32khz sf44khz sf48khz sf88khz sf96khz sf176khz sf192khz : SamplingFreq

abbrev pub freq_index : SamplingFreq → ℕ
freq_index sf32khz = 0
freq_index sf44khz = 1
freq_index sf48khz = 2
freq_index sf88khz = 3
freq_index sf96khz = 4
freq_index sf176khz = 5
freq_index sf192khz = 6

-- The fields of `struct HDMIAudioParameter` that libedid.c reads; `channel_num` is the value of the
-- `enum ChannelNum`, 2 to 8.
pub record AudioParameter : Type 0 where
  pub format_code : AudioFormat
  pub channel_num : ℕ
  pub sample_freq : SamplingFreq
  pub word_length : WordLen
