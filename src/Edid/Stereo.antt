-- ===== src/Edid/Stereo.antt =====
-- The 3D format check of libedid.c: SaveVIC and EDID3DFormatSupport.
pub mod Loop
use exynos.Common.{
  ℕ, zero, suc, ◌+◌, ◌-◌, ◌*◌, ◌/◌, ◌^◌, bit_and, bit_or, Bool, true, false, not, ◌&&◌, ◌||◌, Run,
  done, fault, hang, read_at, Option, none, some, List, [], ◌∷◌, ◌==◌, ltb, leb, if◌then◌else◌,
  ◌<<<◌, ◌>>>◌, u32, set,
}
use exynos.Common.Outcome.{◌>>=◌}
use exynos.Ddc.{Host}
use exynos.Edid.Params.{
  VideoFormat, format_index, VideoParameter, StereoFormat, stereo_index, hdmi_vic, VideoStructure,
  flat, stereo,
}
use exynos.Edid.Tables.{Mandatory, edid_3d}
use exynos.Edid.State.{State, M, pure, bind, reading, byte, num_of_vic_for_3d, edid_read}
use exynos.Edid.Blocks.{Step, next, ret, scan_extension, get_vsdb_offset, video_tag, size_mask}
use exynos.Edid.Query.{any_bit, unless_false, is_timing_extension, requested_vic, check_resolution}

-- `aVIC` and `vic_count`.
pub record Saved : Type 0 where
  pub vics : List ℕ
  pub count : ℕ

-- `for (edid_index = 1; edid_index < blockLen && vic_count < NUM_OF_VIC_FOR_3D; edid_index++)`
unfoldable pub save_loop : State → ℕ → ℕ → ℕ → Saved → Run Saved
save_loop s addr zero i v = done v
save_loop s addr (suc n) i v = elim (ltb v.count num_of_vic_for_3d) [
  | false ↦ done v
  | true ↦ byte s (addr + i) >>= λ b.
      save_loop s addr n (i + 1)
        (record { vics = set v.vics v.count (bit_and b 0x7f); count = v.count + 1 })
]

unfoldable pub save_body : State → ℕ → ℕ → ℕ → Saved → Run (Step Saved (Unit {0}))
unfolding save_loop
save_body s offset tag block_len v = elim (tag == video_tag) [
  | false ↦ done (next v)
  | true ↦ save_loop s offset (block_len - 1) 1 v >>= λ w. done (next w)
]

-- `for (extension = 1; extension <= gExtensions && vic_count < NUM_OF_VIC_FOR_3D; extension++)`
unfoldable pub save_extensions : State → ℕ → ℕ → Saved → Run Saved
save_extensions s zero extension v = hang
save_extensions s (suc fuel) extension v =
    elim (leb extension s.extensions && ltb v.count num_of_vic_for_3d) [
      | false ↦ done v
      | true ↦ scan_extension s extension (save_body s) v >>= λ r. elim r [
        | next w ↦ save_extensions s fuel (extension + 1) w
        | ret _ ↦ hang
      ]
    ]

unfoldable pub save_vic : M (Unit {0})
unfolding save_extensions save_body
save_vic s = save_extensions s (suc s.extensions) 1 (record { vics = s.vics; count = 0 }) >>= λ v.
    done (tt, record s { vics = v.vics })

-- What a round of the loop over `edid_index` leaves: the function's result, or the loop's variable,
-- which the inner loops of the round use as well.
pub data Round : Type 0 where
  returns : Bool → Round
  goes_on : ℕ → Round

-- `latency_offset`
unfoldable pub latency_offset : ℕ → ℕ
latency_offset bits = if bits == 0 then 4 else if bits == 3 then 0 else 2

-- `for (edid_index = 0; edid_index < HDMIVICLen; edid_index++)`, `n` rounds left.
unfoldable pub hdmi_vic_loop : State → ℕ → ℕ → ℕ → ℕ → Run Bool
hdmi_vic_loop s vic start zero k = done false
hdmi_vic_loop s vic start (suc n) k = byte s (start + 14 + k) >>= λ b. elim (vic == b) [
  | true ↦ done true
  | false ↦ hdmi_vic_loop s vic start n (k + 1)
]

-- Whether the table of mandatory formats has the pair.
unfoldable pub in_mandatory : List Mandatory → VideoFormat → StereoFormat → Bool
in_mandatory [] f d = false
in_mandatory (m ∷ ms) f d =
    (format_index m.resolution == format_index f && stereo_index m.format == stereo_index d)
    || in_mandatory ms f d

-- The loop over `aVIC` under the mask, `n` rounds left.
unfoldable pub masked_loop : State → ℕ → ℕ → ℕ → ℕ → Run Bool
masked_loop s vic mask zero k = done false
masked_loop s vic mask (suc n) k = elim (any_bit mask (1 <<< k)) [
  | false ↦ masked_loop s vic mask n (k + 1)
  | true ↦ read_at s.vics k >>= λ v. elim (vic == v) [
    | true ↦ done true
    | false ↦ masked_loop s vic mask n (k + 1)
  ]
]

-- `1 << n` on an `int`: undefined from 31 on.
abbrev pub shift_one : ℕ → Run ℕ
shift_one n = if ltb n 31 then done (1 <<< n) else fault

-- `Hdmi3DStructure == pVideo->hdmi_3d_format && vic == aVIC[VICOrder]`
unfoldable pub extra_matches : State → ℕ → ℕ → ℕ → ℕ → Run Bool
extra_matches s vic d structure order = elim (structure == d) [
  | false ↦ done false
  | true ↦ read_at s.vics order >>= λ v. done (vic == v)
]

-- The loop over the extra data: one byte at each even place from `at` on.
unfoldable pub extra_loop : State → ℕ → ℕ → ℕ → ℕ → ℕ → Run Bool
extra_loop s vic d at zero k = done false
extra_loop s vic d at (suc n) k = byte s (at + k * 2) >>= λ b.
    shift_one (bit_and b 0xf0) >>= λ order. shift_one (bit_and b 0x0f) >>= λ structure.
    extra_matches s vic d structure order >>= λ found. elim found [
      | true ↦ done true
      | false ↦ extra_loop s vic d at n (k + 1)
    ]

-- The values of a round that its parts share; `present` and `multi` are 0 until they are read.
pub record Vsdb : Type 0 where
  pub start : ℕ
  pub block_length : ℕ
  pub latency : ℕ
  pub vic_len : ℕ
  pub len_3d : ℕ
  pub present : ℕ
  pub multi : ℕ

-- The part of a round for 3D_Multi_Present. The structure mask is or-ed into 0xFFFF.
unfoldable pub multi_part : State → ℕ → ℕ → Vsdb → ℕ → Run Round
multi_part s vic d v index =
    (elim (v.multi == 0x20 || v.multi == 0x40) [
      | true ↦ byte s (v.start + 14 + v.vic_len + 1) >>= λ hi.
          byte s (v.start + 14 + v.vic_len + 2) >>= λ lo. done (bit_or (hi <<< 8) lo)
      | false ↦ done 0
    ])
    >>= λ structure.
        (elim (v.multi == 0x40) [
          | true ↦ byte s (v.start + 14 + v.vic_len + 3) >>= λ hi.
              byte s (v.start + 14 + v.vic_len + 4) >>= λ lo.
              done (bit_or (bit_or 0xffff (hi <<< 8)) lo)
          | false ↦ done 0xffff
        ])
        >>= λ mask. elim (any_bit structure (1 <<< d)) [
          | false ↦ done (goes_on index)
          | true ↦ masked_loop s vic mask num_of_vic_for_3d 0 >>= λ found.
              done (if found then returns true else goes_on num_of_vic_for_3d)
        ]

-- The part of a round for the extra data. `HDMI3DExtLen` is unsigned and wraps.
unfoldable pub extra_part : State → ℕ → ℕ → Vsdb → ℕ → Run Round
extra_part s vic d v index =
    let pairs = (v.multi >>> 5) * 2 in
    let ext_len = u32 (v.len_3d + 2 ^ 32 - pairs) in
    elim (leb (14 - v.latency) v.block_length && not (ext_len == 0)) [
      | false ↦ done (goes_on index)
      | true ↦ extra_loop s vic d (v.start + 14 + v.vic_len + pairs) (ext_len / 2) 0 >>= λ found.
          done (if found then returns true else goes_on (ext_len / 2))
    ]
