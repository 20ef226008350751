-- ===== src/Edid/Stereo/Loop/Endless.antt =====
-- A sink at which EDID3DFormatSupport does not return.
use exynos.Common.{ℕ, zero, suc, ◌-◌, ◌≤◌, ◌<◌, ◌≡◌, ◌≢◌, refl, true, done, hang, some, leb, arith}
use exynos.Ddc.{Host}
use exynos.Edid.Params.{VideoParameter, StereoFormat, stereo_index, hdmi_vic}
use exynos.Edid.State.{State}
use exynos.Edid.Blocks.{get_vsdb_offset}
use exynos.Edid.Query.{is_timing_extension}
use exynos.Edid.Stereo.{Vsdb, goes_on, extra_part, extra_loop}
use exynos.Edid.Stereo.Loop.{
  read_vsdb, read_flags, later_parts, present_part, stereo_round, extension_round, stereo_loop,
}

-- The fields of a VSDB with a single byte of 3D data and no flag of 3D formats.
abbrev pub lone_byte : ℕ → ℕ → ℕ → ℕ → Vsdb
lone_byte start block_length latency vic_len = record {
  start = start;
  block_length = block_length;
  latency = latency;
  vic_len = vic_len;
  len_3d = 1;
  present = 0;
  multi = 0;
}

-- The first extension has such a VSDB, at `at`.
pub record HasLoneByte (host : Host) (s : State) (at start len latency vic_len : ℕ) : Type 0 where
  pub extension : 1 ≤ s.extensions
  pub timing : is_timing_extension host 1 s ≡ done (true, s)
  pub offset : get_vsdb_offset s 1 ≡ done at
  pub positive : 0 < at
  pub fields : read_vsdb s at ≡ done (some (lone_byte start len latency vic_len))
  pub flags :
      read_flags s (lone_byte start len latency vic_len)
      ≡ done (lone_byte start len latency vic_len)
  pub long : 14 - latency ≤ len

later_parts-lone :
    (s : State) (vic : ℕ) (d : StereoFormat) (start len latency vic_len index : ℕ)
    → 14 - latency ≤ len
    → later_parts s vic d (lone_byte start len latency vic_len) index ≡ done (goes_on 0)
unfolding later_parts extra_part extra_loop
later_parts-lone s vic d start len latency vic_len index h =
    let le : leb (14 - latency) len ≡ true = ground arith in rw (le, later_parts, extra_part) refl

module _ (host : Host) where
  -- A round at such an extension sets the loop's variable back to 0.
  extension_round-lone :
      (video : VideoParameter) (d : StereoFormat) (vic : ℕ) (s : State)
      (at start len latency vic_len : ℕ)
      → HasLoneByte host s at start len latency vic_len
      → stereo_index d ≢ stereo_index hdmi_vic
      → extension_round host video d vic 1 s ≡ done (goes_on 0, s)
  unfolding extension_round stereo_round present_part
  extension_round-lone video d vic s at start len latency vic_len h ne = ground (
    arith,
    h.timing,
    h.offset,
    h.positive,
    h.fields,
    h.flags,
    later_parts-lone s vic d start len latency vic_len 1 h.long,
  )

  -- At a sink whose first extension has an HDMI VSDB with a single byte of 3D data and no flag of 3D formats, the
  -- loop of EDID3DFormatSupport runs for ever for every 3D format but the HDMI VIC: no fuel is enough.
  pub stereo_loop-endless :
      (video : VideoParameter) (d : StereoFormat) (vic : ℕ) (s : State)
      (at start len latency vic_len fuel : ℕ)
      → HasLoneByte host s at start len latency vic_len
      → stereo_index d ≢ stereo_index hdmi_vic
      → stereo_loop host video d vic fuel 1 s ≡ hang
  unfolding stereo_loop
  stereo_loop-endless video d vic s at start len latency vic_len zero h ne = refl
  stereo_loop-endless video d vic s at start len latency vic_len (suc fuel) h ne = ground (
    arith,
    h.extension,
    extension_round-lone video d vic s at start len latency vic_len h ne,
    stereo_loop-endless video d vic s at start len latency vic_len fuel h ne,
  )
