-- ===== src/Edid/Api.antt =====
-- The entry points of libedid.c for video: EDIDHDMIModeSupport and the others.
use exynos.Common.{
  ℕ, ◌+◌, ◌*◌, ◌/◌, Bool, true, false, not, ◌&&◌, Run, done, Option, none, some, bit_or, ◌==◌, ltb,
  if◌then◌else◌, ◌<<<◌,
}
use exynos.Common.Outcome.{◌>>=◌}
use exynos.Ddc.{Host}
use exynos.Edid.Params.{VideoParameter, hdmi, dvi, ColorDepth, cd36, cd30, cd24}
use exynos.Edid.Tables.{params_of}
use exynos.Edid.State.{State, M, pure, bind, reading, byte, edid_read}
use exynos.Edid.Query.{
  find_extension, unless_false, vsdb_extension, check_hdmi_mode, check_resolution,
}
use exynos.Edid.Color.{check_color_depth, check_color_space, check_colorimetry, get_max_tmds}
use exynos.Edid.Stereo.Loop.{edid3d_format_support}

-- `TMDSClock *= 1.5` and `*= 1.25` on an unsigned int: the product is cut to an integer.
unfoldable pub tmds_clock : ColorDepth → ℕ → ℕ
tmds_clock cd36 clock = clock * 3 / 2
tmds_clock cd30 clock = clock * 5 / 4
tmds_clock cd24 clock = clock

-- The physical address in the VSDB at `start`, `*outAddr`.
unfoldable pub physical_address : State → ℕ → Run ℕ
physical_address s start =
    byte s (start + 4) >>= λ hi. byte s (start + 5) >>= λ lo. done (bit_or (hi <<< 8) lo)

-- `*outAddr = phyAddr; return 1;`
unfoldable pub address_body : ℕ → M (Option (Option ℕ))
unfolding physical_address
address_body start = bind (reading (λ s. physical_address s start)) (λ a. pure (some (some a)))

module _ (host : Host) where
  -- `none` where the function returns 0.
  unfoldable pub edid_get_cec_physical_address : M (Option ℕ)
  edid_get_cec_physical_address =
      unless_false (edid_read host) none (find_extension (vsdb_extension host address_body) none)

  unfoldable pub edid_hdmi_mode_support : VideoParameter → M Bool
  edid_hdmi_mode_support video =
      unless_false (edid_read host) false
        (elim video.mode [ hdmi ↦ check_hdmi_mode host | dvi ↦ pure true ])

  -- The part of EDIDVideoResolutionSupport after the clock has been checked.
  unfoldable pub resolution_and_3d : ℕ → VideoParameter → M Bool
  resolution_and_3d fuel video =
      unless_false (check_resolution host video.resolution video.pixel_aspect_ratio) false
        (edid3d_format_support host fuel video)

  -- The fuel is that of the loop of EDID3DFormatSupport.
  unfoldable pub edid_video_resolution_support : ℕ → VideoParameter → M Bool
  unfolding tmds_clock
  edid_video_resolution_support fuel video = unless_false (edid_read host) false (
      bind (get_max_tmds host) (λ tmds. bind (reading (λ _. params_of video.resolution)) (λ p.
        if not (tmds * 5 == 0)
          && ltb (tmds * 5) (tmds_clock video.color_depth (p.pixel_clock / 100))
        then pure false
        else resolution_and_3d fuel video)))

  unfoldable pub edid_color_depth_support : VideoParameter → M Bool
  edid_color_depth_support video =
      unless_false (edid_read host) false
        (check_color_depth host video.color_depth video.color_space)

  unfoldable pub edid_color_space_support : VideoParameter → M Bool
  edid_color_space_support video =
      unless_false (edid_read host) false (check_color_space host video.color_space)

  unfoldable pub edid_colorimetry_support : VideoParameter → M Bool
  edid_colorimetry_support video =
      unless_false (edid_read host) false (check_colorimetry host video.colorimetry)
