-- ===== src/Edid/Quiet/Checks/Entry.antt =====
-- The entry points of libedid.c once the EDID is there.
use exynos.Common.{
  ℕ, ◌+◌, ◌*◌, refl, Bool, true, false, Run, Option, none, Ends, Ends-bind, leb, bit_and,
  Bool-cases, inl, inr,
}
use exynos.Ddc.{Host}
use exynos.Edid.Params.{
  VideoParameter, AudioParameter, ColorSpace, rgb, ColorDepth, cd24, Colorimetry, no_data, itu601,
  itu709, extended_xvycc601, extended_xvycc709, HdmiMode, hdmi, dvi,
}
use exynos.Edid.State.{State, M, pure, reading, block_size, byte}
use exynos.Edid.Loaded.{IsValid}
use exynos.Edid.Blocks.{next, ret, scan_extension, size_mask}
use exynos.Edid.Color.{
  block_field, deep_color, color_depth_body, read_color_space, read_colorimetry, check_color_depth,
  check_color_space, colorimetry_body, extended_colorimetry, check_colorimetry, max_tmds_body,
  get_max_tmds,
}
use exynos.Edid.Audio.{audio_body, read_audio, edid_audio_mode_support}
use exynos.Edid.Api.{
  physical_address, address_body, edid_get_cec_physical_address, edid_hdmi_mode_support,
  edid_color_depth_support, edid_color_space_support, edid_colorimetry_support,
}
use exynos.Edid.Query.{check_hdmi_mode, find_extension, timing_body, vsdb_extension}
use exynos.Edid.Quiet.{byte-Ends, scan_extension-Ends}
use exynos.Edid.Quiet.Walks.{colorimetry_body-Ends, audio_body-Ends}
use exynos.Edid.Quiet.Checks.{
  IsReady, Quiet, reading-Quiet, bind-Quiet, find_extension-Quiet, after_read-Quiet,
  check_hdmi_mode-Quiet, timing_body-Quiet, vsdb_extension-Quiet,
}

block_field-Ends :
    {A : Type 0} (pos : ℕ) (f : ℕ → A) (start : ℕ) (s : State) → Ends (block_field pos f start s)
unfolding block_field
block_field-Ends pos f start s = Ends-bind (byte s start) _ (byte-Ends s start) (λ head.
    elim (Bool-cases (leb pos (bit_and head size_mask))) [
      | inl y ↦ rw y (Ends-bind (byte s (start + pos)) _ (byte-Ends s _) (λ b. tt))
      | inr n ↦ rw n tt
    ])

color_depth_body-Quiet :
    (s : State) (d : ColorDepth) (c : ColorSpace) (start : ℕ)
    → Quiet s (color_depth_body d c start s)
unfolding color_depth_body
color_depth_body-Quiet s d c start =
    let f : ℕ → Bool = λ dc. deep_color d c (bit_and dc 0x78) in
    reading-Quiet s (block_field 6 f start) (block_field-Ends 6 f start s)

max_tmds_body-Quiet : (s : State) (start : ℕ) → Quiet s (max_tmds_body start s)
unfolding max_tmds_body
max_tmds_body-Quiet s start =
    let f : ℕ → ℕ = λ clock. clock in
    reading-Quiet s (block_field 7 f start) (block_field-Ends 7 f start s)

physical_address-Ends : (s : State) (start : ℕ) → Ends (physical_address s start)
unfolding physical_address
physical_address-Ends s start =
    Ends-bind (byte s (start + 4)) _ (byte-Ends s _)
      (λ _. Ends-bind (byte s (start + 5)) _ (byte-Ends s _) (λ _. tt))

address_body-Quiet : (s : State) (start : ℕ) → Quiet s (address_body start s)
unfolding address_body
address_body-Quiet s start =
    bind-Quiet s (reading (λ t. physical_address t start)) _
      (reading-Quiet s (λ t. physical_address t start) (physical_address-Ends s start)) (λ a. refl)

read_color_space-Ends : (c : ColorSpace) (i : ℕ) (s : State) → Ends (read_color_space c i s)
unfolding read_color_space
read_color_space-Ends c i s = Ends-bind (byte s (i * block_size + 3)) _ (byte-Ends s _) (λ _. tt)

read_colorimetry-Ends :
    (c : Colorimetry) (i : ℕ) (s : State) → IsValid s → Ends (read_colorimetry c i s)
unfolding read_colorimetry
read_colorimetry-Ends c i s v =
    Ends-bind (scan_extension s i (colorimetry_body c s) tt) _
      (scan_extension-Ends s i (colorimetry_body c s) tt v (colorimetry_body-Ends c s))
      (elim [ ret a ↦ tt | next y ↦ tt ])

read_audio-Ends : (a : AudioParameter) (i : ℕ) (s : State) → IsValid s → Ends (read_audio a i s)
unfolding read_audio
read_audio-Ends a i s v =
    Ends-bind (scan_extension s i (audio_body a s) tt) _
      (scan_extension-Ends s i (audio_body a s) tt v (audio_body-Ends a s))
      (elim [ ret b ↦ tt | next y ↦ tt ])

module _ (host : Host) (s : State) (r : IsReady s) where
  vsdb_walk-Quiet :
      {A : Type 0} (body : ℕ → M (Option A)) (a : A)
      → ((start : ℕ) → Quiet s (body start s))
      → Quiet s (find_extension (vsdb_extension host body) a s)
  vsdb_walk-Quiet body a h =
      find_extension-Quiet s (vsdb_extension host body) a
        (λ i. vsdb_extension-Quiet host s r body i h)

  timing_walk-Quiet :
      {A : Type 0} (f : ℕ → State → Run (Option A)) (a : A)
      → ((i : ℕ) → Ends (f i s))
      → Quiet s (find_extension (timing_body host (λ i. reading (f i))) a s)
  timing_walk-Quiet f a h =
      find_extension-Quiet s (timing_body host (λ i. reading (f i))) a
        (λ i. timing_body-Quiet host s r (λ j. reading (f j)) i (reading-Quiet s (f i) (h i)))

  depth-Quiet : (d : ColorDepth) (c : ColorSpace) → Quiet s (check_color_depth host d c s)
  unfolding check_color_depth
  depth-Quiet cd24 c = refl
  depth-Quiet d c =
      after_read-Quiet host s r false _
        (vsdb_walk-Quiet (color_depth_body _ c) false (color_depth_body-Quiet s _ c))

  space-Quiet : (c : ColorSpace) → Quiet s (check_color_space host c s)
  unfolding check_color_space
  space-Quiet rgb = refl
  space-Quiet c =
      after_read-Quiet host s r false _
        (timing_walk-Quiet (read_color_space _) false (λ i. read_color_space-Ends _ i s))

  extended-Quiet : (c : Colorimetry) → Quiet s (extended_colorimetry host c s)
  unfolding extended_colorimetry
  extended-Quiet c =
      after_read-Quiet host s r false _
        (timing_walk-Quiet (read_colorimetry c) false (λ i. read_colorimetry-Ends c i s r.valid))

  colorimetry-Quiet : (c : Colorimetry) → Quiet s (check_colorimetry host c s)
  unfolding check_colorimetry
  colorimetry-Quiet no_data = refl
  colorimetry-Quiet itu601 = refl
  colorimetry-Quiet itu709 = refl
  colorimetry-Quiet extended_xvycc601 = extended-Quiet extended_xvycc601
  colorimetry-Quiet extended_xvycc709 = extended-Quiet extended_xvycc709

  pub get_max_tmds-Quiet : Quiet s (get_max_tmds host s)
  unfolding get_max_tmds
  get_max_tmds-Quiet = vsdb_walk-Quiet max_tmds_body 0 (max_tmds_body-Quiet s)

  mode-Quiet :
      (m : HdmiMode)
      → Quiet s ((elim m as (λ _. M Bool) [ hdmi ↦ check_hdmi_mode host | dvi ↦ pure true ]) s)
  mode-Quiet hdmi = check_hdmi_mode-Quiet host s r
  mode-Quiet dvi = refl

  -- Once the EDID has been read, the questions about the mode, the colours, the audio format and the
  -- physical address are answered from memory: the code stops for all bytes that the sink may have
  -- sent, and where it returns, the state, that of the device included, is as it was.
  pub queries-Quiet :
      (video : VideoParameter) (audio : AudioParameter)
      → Quiet s (edid_hdmi_mode_support host video s)
        × Quiet s (edid_color_depth_support host video s)
        × Quiet s (edid_color_space_support host video s)
        × Quiet s (edid_colorimetry_support host video s)
        × Quiet s (edid_audio_mode_support host audio s)
        × Quiet s (edid_get_cec_physical_address host s)
  unfolding edid_hdmi_mode_support edid_color_depth_support edid_color_space_support
      edid_colorimetry_support edid_audio_mode_support edid_get_cec_physical_address
  queries-Quiet video audio = (
    after_read-Quiet host s r false _ (mode-Quiet video.mode),
    after_read-Quiet host s r false _ (depth-Quiet video.color_depth video.color_space),
    after_read-Quiet host s r false _ (space-Quiet video.color_space),
    after_read-Quiet host s r false _ (colorimetry-Quiet video.colorimetry),
    after_read-Quiet host s r 0 _
        (timing_walk-Quiet (read_audio audio) 0 (λ i. read_audio-Ends audio i s r.valid)),
    after_read-Quiet host s r none _ (vsdb_walk-Quiet address_body none (address_body-Quiet s)),
  )
