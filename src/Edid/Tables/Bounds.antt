-- ===== src/Edid/Tables/Bounds.antt =====
-- What EDID3DFormatSupport does with an index past the end of `aVideoParams`.
use exynos.Common.{ℕ, ◌≤◌, ◌≡◌, refl, fault, read_at-of_ge, arith}
use exynos.Ddc.{Host}
use exynos.Edid.Params.{
  VideoFormat, format_index, VideoParameter, v1280x720p_30hz, v1920x1080p_120hz, v1920x1080p_100hz,
  v4kx2k_30hz,
}
use exynos.Edid.State.{State}
use exynos.Edid.Tables.{a_video_params, params_of}
use exynos.Edid.Query.{requested_vic}
use exynos.Edid.Stereo.Loop.{edid3d_format_support}

-- The formats behind the 39 rows of the table.
pub data BeyondTable : VideoFormat → Type 0 where
  beyond_720p_30 : BeyondTable v1280x720p_30hz
  beyond_1080p_120 : BeyondTable v1920x1080p_120hz
  beyond_1080p_100 : BeyondTable v1920x1080p_100hz
  beyond_4k_30 : BeyondTable v4kx2k_30hz

index-ge : (f : VideoFormat) → BeyondTable f → 39 ≤ format_index f
index-ge _ beyond_720p_30 = omega arith
index-ge _ beyond_1080p_120 = omega arith
index-ge _ beyond_1080p_100 = omega arith
index-ge _ beyond_4k_30 = omega arith

overrun : (f : VideoFormat) → 39 ≤ format_index f → params_of f ≡ fault
unfolding params_of a_video_params
overrun f h = read_at-of_ge a_video_params (format_index f) h

-- For v1280x720p_30Hz, v1920x1080p_120Hz, v1920x1080p_100Hz and v4Kx2K_30Hz EDID3DFormatSupport reads `aVideoParams` past
-- its end, whatever the sink has sent and whatever the 3D format is.
pub edid3d_format_support-overrun :
    (host : Host) (fuel : ℕ) (video : VideoParameter) (s : State)
    → BeyondTable video.resolution
    → edid3d_format_support host fuel video s ≡ fault
unfolding edid3d_format_support requested_vic
edid3d_format_support-overrun host fuel video s h =
    let none_there = overrun video.resolution (index-ge video.resolution h) in
    rw (none_there, edid3d_format_support, requested_vic) refl
