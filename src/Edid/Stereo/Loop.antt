-- ===== src/Edid/Stereo/Loop.antt =====
-- EDID3DFormatSupport of libedid.c: a round of its loop, the loop, the function.
pub mod Endless
use exynos.Common.{
  ℕ, zero, suc, ◌+◌, ◌-◌, bit_and, Bool, true, false, Run, done, hang, Option, none, some, ◌==◌,
  ltb, leb, if◌then◌else◌, ◌>>>◌,
}
use exynos.Common.Outcome.{◌>>=◌}
use exynos.Ddc.{Host}
use exynos.Edid.Params.{VideoParameter, StereoFormat, stereo_index, hdmi_vic, flat, stereo}
use exynos.Edid.Tables.{edid_3d}
use exynos.Edid.State.{State, M, pure, bind, reading, byte, edid_read}
use exynos.Edid.Blocks.{get_vsdb_offset, size_mask}
use exynos.Edid.Query.{unless_false, is_timing_extension, requested_vic, check_resolution}
use exynos.Edid.Stereo.{
  Round, returns, goes_on, Vsdb, latency_offset, hdmi_vic_loop, in_mandatory, multi_part,
  extra_part, save_vic,
}

-- The head of a round at the block at `start`: `none` if it is too short for 3D data.
unfoldable pub read_vsdb : State → ℕ → Run (Option Vsdb)
unfolding latency_offset
read_vsdb s start = byte s start >>= λ head. elim (leb 8 (bit_and head size_mask)) [
  | false ↦ done none
  | true ↦ byte s (start + 8) >>= λ ext.
      let latency = latency_offset (bit_and ext 0xc0 >>> 6) in
      let base = start - latency in
      byte s (base + 14) >>= λ lens. done (
        some (record {
          start = base;
          block_length = bit_and head size_mask;
          latency = latency;
          vic_len = bit_and lens 0xe0 >>> 5;
          len_3d = bit_and lens 0x1f;
          present = 0;
          multi = 0;
        }))
]

-- The flags 3D_Present and 3D_Multi_Present, if the block is long enough.
unfoldable pub read_flags : State → Vsdb → Run Vsdb
read_flags s v = elim (leb (13 - v.latency) v.block_length) [
  | false ↦ done v
  | true ↦ byte s (v.start + 13) >>= λ b.
      done (record v { present = bit_and b 0x80; multi = bit_and b 0x60 })
]

-- The rest of a round after the mandatory formats.
unfoldable pub later_parts : State → ℕ → StereoFormat → Vsdb → ℕ → Run Round
later_parts s vic d v index =
    (elim (v.multi == 0) [
      | true ↦ done (goes_on index)
      | false ↦ multi_part s vic (stereo_index d) v index
    ])
    >>= λ r. elim r [
      | returns a ↦ done (returns a)
      | goes_on k ↦ extra_part s vic (stereo_index d) v k
    ]

module _ (host : Host) where
  -- The mandatory formats, which a sink with 3D_Present supports at a resolution that it supports.
  unfoldable pub present_part : VideoParameter → StereoFormat → Vsdb → ℕ → M Round
  present_part video d v index = elim (v.present == 0) [
    | true ↦ pure (goes_on index)
    | false ↦ bind (check_resolution host video.resolution video.pixel_aspect_ratio) (λ ok.
        elim ok [
          | false ↦ pure (goes_on index)
          | true ↦
              pure (if in_mandatory edid_3d video.resolution d then returns true else goes_on 8)
        ])
  ]

  -- A round at a block that has the 3D fields.
  unfoldable pub stereo_round : VideoParameter → StereoFormat → ℕ → Vsdb → ℕ → M Round
  stereo_round video d vic head index = elim (stereo_index d == stereo_index hdmi_vic) [
    | true ↦
        bind (reading (λ s. hdmi_vic_loop s vic head.start head.vic_len 0))
          (λ found. pure (returns found))
    | false ↦ bind (reading (λ s. read_flags s head)) (λ v.
        bind (present_part video d v index) (λ r. elim r [
          | returns a ↦ pure (returns a)
          | goes_on k ↦ reading (λ s. later_parts s vic d v k)
        ]))
  ]

  -- The body of the loop over `edid_index`.
  unfoldable pub extension_round : VideoParameter → StereoFormat → ℕ → ℕ → M Round
  extension_round video d vic index = bind (is_timing_extension host index) (λ timing. elim timing [
    | false ↦ pure (goes_on index)
    | true ↦ bind (reading (λ s. get_vsdb_offset s index)) (λ start. elim (ltb 0 start) [
      | false ↦ pure (goes_on index)
      | true ↦ bind (reading (λ s. read_vsdb s start)) (λ h. elim h [
        | none ↦ pure (returns false)
        | some head ↦ stereo_round video d vic head index
      ])
    ])
  ])

  -- `for (edid_index = 1; edid_index <= gExtensions; edid_index++)`. The rounds change `edid_index`,
  -- so their number is not bounded by the code: it is the fuel.
  unfoldable pub stereo_loop : VideoParameter → StereoFormat → ℕ → ℕ → ℕ → M Bool
  stereo_loop video d vic zero index s = hang
  stereo_loop video d vic (suc fuel) index s = elim (leb index s.extensions) [
    | false ↦ done (false, s)
    | true ↦ extension_round video d vic index s >>= λ r. elim r.0 [
      | returns a ↦ done (a, r.1)
      | goes_on k ↦ stereo_loop video d vic fuel (k + 1) r.1
    ]
  ]

  unfoldable pub edid3d_format_support : ℕ → VideoParameter → M Bool
  edid3d_format_support fuel video =
      bind (reading (λ _. requested_vic video.resolution video.pixel_aspect_ratio)) (λ vic.
        elim video.hdmi_3d_format [
          | flat ↦ pure true
          | stereo d ↦
              unless_false (edid_read host) false
                (bind save_vic (λ _. stereo_loop video d vic fuel 1))
        ])
