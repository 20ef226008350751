-- ===== src/Edid/Tables.antt =====
-- The constant tables of libedid.c.
pub mod Bounds
use exynos.Common.{ℕ, Run, read_at, List, [], ◌∷◌}
use exynos.Edid.Params.{VideoFormat, StereoFormat, format_index, fp, tb, ssh}
use exynos.Edid.Params.{
  v1920x1080p_24hz, v1280x720p_60hz, v1920x1080i_60hz, v1280x720p_50hz, v1920x1080i_50hz,
}

-- `struct edid_params`; `pixel_clock` is the value of the `enum PixelFreq`.
pub record VideoParams : Type 0 where
  pub h_total : ℕ
  pub h_blank : ℕ
  pub v_total : ℕ
  pub v_blank : ℕ
  pub vic : ℕ
  pub vic16_9 : ℕ
  pub interlaced : ℕ
  pub pixel_clock : ℕ

abbrev row : ℕ → ℕ → ℕ → ℕ → ℕ → ℕ → ℕ → ℕ → VideoParams
row ht hb vt vb v v16 i clk = record {
  h_total = ht;
  h_blank = hb;
  v_total = vt;
  v_blank = vb;
  vic = v;
  vic16_9 = v16;
  interlaced = i;
  pixel_clock = clk;
}

-- `aVideoParams`.
unfoldable pub a_video_params : List VideoParams
a_video_params =
    row 800 160 525 45 1 1 0 2520
    ∷ row 858 138 525 45 2 3 0 2702
    ∷ row 1650 370 750 30 4 4 0 7425
    ∷ row 2200 280 1125 22 5 5 1 7425
    ∷ row 1716 276 525 22 6 7 1 7425
    ∷ row 1716 276 262 22 8 9 0 2702
    ∷ row 3432 552 525 22 10 11 1 5405
    ∷ row 3432 552 262 22 12 13 0 5405
    ∷ row 1716 276 525 45 14 15 0 5405
    ∷ row 2200 280 1125 45 16 16 0 14850
    ∷ row 864 144 625 49 17 18 0 2700
    ∷ row 1980 700 750 30 19 19 0 7425
    ∷ row 2640 720 1125 22 20 20 1 7425
    ∷ row 1728 288 625 24 21 22 1 2700
    ∷ row 1728 288 312 24 23 24 0 2700
    ∷ row 3456 576 625 24 25 26 1 5400
    ∷ row 3456 576 312 24 27 28 0 5400
    ∷ row 1728 288 625 49 29 30 0 5400
    ∷ row 2640 720 1125 45 31 31 0 14850
    ∷ row 2750 830 1125 45 32 32 0 7425
    ∷ row 2640 720 1125 45 33 33 0 7425
    ∷ row 2200 280 1125 45 34 34 0 7425
    ∷ row 3432 552 525 45 35 36 0 10810
    ∷ row 3456 576 625 49 37 38 0 10800
    ∷ row 2304 384 1250 85 39 39 1 7200
    ∷ row 2640 720 1125 22 40 40 1 14850
    ∷ row 1980 700 750 30 41 41 0 14850
    ∷ row 864 144 625 49 42 43 0 5400
    ∷ row 1728 288 625 24 44 45 1 5400
    ∷ row 2200 280 1125 22 46 46 1 14850
    ∷ row 1650 370 750 30 47 47 0 14850
    ∷ row 858 138 525 54 48 49 0 5405
    ∷ row 1716 276 525 22 50 51 1 5405
    ∷ row 864 144 625 49 52 53 0 10800
    ∷ row 1728 288 625 24 54 55 1 10800
    ∷ row 858 138 525 45 56 57 0 10810
    ∷ row 1716 276 525 22 58 59 1 10810
    ∷ row 3960 2680 750 30 61 61 0 7425
    ∷ row 3300 2020 750 30 62 62 0 7425
    ∷ []

-- `aVideoParams[videoFormat]`: the table is indexed by the value of the format.
unfoldable pub params_of : VideoFormat → Run VideoParams
unfolding a_video_params
params_of f = read_at a_video_params (format_index f)

-- `struct edid_3d_mandatory`.
pub record Mandatory : Type 0 where
  pub resolution : VideoFormat
  pub format : StereoFormat

abbrev mandatory : VideoFormat → StereoFormat → Mandatory
mandatory v f = record { resolution = v; format = f }

-- `edid_3d`.
unfoldable pub edid_3d : List Mandatory
edid_3d =
    mandatory v1920x1080p_24hz fp
    ∷ mandatory v1280x720p_60hz fp
    ∷ mandatory v1920x1080i_60hz ssh
    ∷ mandatory v1920x1080p_24hz tb
    ∷ mandatory v1280x720p_60hz tb
    ∷ mandatory v1280x720p_50hz fp
    ∷ mandatory v1920x1080i_50hz ssh
    ∷ mandatory v1280x720p_50hz tb
    ∷ []
