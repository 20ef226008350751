-- ===== src/Edid/Query.antt =====
-- The walks of libedid.c over the extensions: CheckHDMIMode, IsTimingExtension, CheckResolution.
use exynos.Common.{
  ℕ, zero, suc, ◌+◌, ◌*◌, bit_and, Bool, true, false, not, ◌||◌, Run, done, hang, Option, none,
  some, ◌==◌, ltb, leb, if◌then◌else◌,
}
use exynos.Common.Outcome.{◌>>=◌}
use exynos.Ddc.{Host}
use exynos.Edid.Params.{VideoFormat, v640x480p_60hz, format_index, PixelAspectRatio, ratio_16_9}
use exynos.Edid.Tables.{params_of}
use exynos.Edid.State.{State, M, pure, bind, reading, block_size, byte, edid_valid, edid_read}
use exynos.Edid.Blocks.{get_vsdb_offset, is_contain_vic}
use exynos.Edid.Timings.{is_contain_video_dtd}

-- A `b != 0` test on a masked byte.
abbrev pub any_bit : ℕ → ℕ → Bool
any_bit b mask = not (bit_and b mask == 0)

-- `for (i = …; i <= gExtensions; i++)` with a body that may return.
unfoldable pub each_extension : {A : Type 0} → ℕ → ℕ → (ℕ → M (Option A)) → M (Option A)
each_extension zero i body s = hang
each_extension (suc fuel) i body s = elim (leb i s.extensions) [
  | false ↦ done (none, s)
  | true ↦ body i s >>= λ r. elim r.0 [
    | some a ↦ done (some a, r.1)
    | none ↦ each_extension fuel (i + 1) body r.1
  ]
]

-- The loop from extension 1 on, and what the function returns after it.
abbrev pub find_extension : {A : Type 0} → (ℕ → M (Option A)) → A → M A
find_extension body default s = each_extension (suc s.extensions) 1 body s >>= λ r. elim r.0 [
  | some a ↦ done (a, r.1)
  | none ↦ done (default, r.1)
]

-- `if (!m) return 0; k`
abbrev pub unless_false : {A : Type 0} → M Bool → A → M A → M A
unless_false m a k = bind m (λ ok. if ok then k else pure a)

-- The code that the loop of CheckResolution looks for.
unfoldable pub requested_vic : VideoFormat → PixelAspectRatio → Run ℕ
requested_vic f ratio =
    params_of f >>= λ p. elim ratio [ ratio_16_9 ↦ done p.vic16_9 | _ ↦ done p.vic ]

abbrev pub is_640x480 : VideoFormat → Bool
is_640x480 f = format_index f == format_index v640x480p_60hz

-- `if (videoFormat == v640x480p_60Hz && (gEdidData[EDID_ET_POS] & EDID_ET_640x480p_VAL))`
unfoldable pub established_timing : VideoFormat → State → Run Bool
established_timing f s = elim (is_640x480 f) [
  | true ↦ byte s 0x23 >>= λ b. done (any_bit b 0x20)
  | false ↦ done false
]

-- `(StartAddr = GetVSDBOffset(i)) > 0`, and the body at that offset.
abbrev pub at_vsdb : {A : Type 0} → (ℕ → M (Option A)) → ℕ → M (Option A)
at_vsdb body i =
    bind (reading (λ s. get_vsdb_offset s i))
      (λ start. if ltb 0 start then body start else pure none)

-- `if (IsContainVIC(i, vic) || IsContainVideoDTD(i, videoFormat)) return 1;`
abbrev pub resolution_body : VideoFormat → ℕ → ℕ → M (Option Bool)
resolution_body f vic i = bind (reading (λ s. is_contain_vic s i vic)) (λ has.
    if has
    then pure (some true)
    else bind (reading (λ s. is_contain_video_dtd s i f))
        (λ has. pure (if has then some true else none)))

module _ (host : Host) where
  unfoldable pub check_hdmi_mode : M Bool
  check_hdmi_mode = unless_false (edid_read host) false (
      find_extension
        (λ i.
          bind (reading (λ s. get_vsdb_offset s i))
            (λ offset. pure (if ltb 0 offset then some true else none)))
        false)

  unfoldable pub is_timing_extension : ℕ → M Bool
  is_timing_extension extension s =
      if not (edid_valid s) || ltb s.extensions extension
      then done (false, s)
      else bind (reading (λ s. byte s (extension * block_size)))
          (λ tag.
            if tag == 0x02
            then bind (reading (λ s. byte s (extension * block_size + 1))) (λ rev.
              if rev == 3
              then pure true
              else bind check_hdmi_mode
                  (λ mode. if mode then pure false else pure (not (rev == 2))))
            else pure false)
          s

  -- A loop over the timing extensions, and one over those that have an HDMI VSDB.
  abbrev pub timing_body : {A : Type 0} → (ℕ → M (Option A)) → ℕ → M (Option A)
  timing_body body i = bind (is_timing_extension i) (λ yes_. if yes_ then body i else pure none)

  abbrev pub vsdb_extension : {A : Type 0} → (ℕ → M (Option A)) → ℕ → M (Option A)
  vsdb_extension body = timing_body (at_vsdb body)

  unfoldable pub check_resolution : VideoFormat → PixelAspectRatio → M Bool
  check_resolution f ratio = unless_false (edid_read host) false (
      bind (reading (established_timing f)) (λ et.
        if et
        then pure true
        else bind (reading (λ s. is_contain_video_dtd s 0 f)) (λ dtd.
          if dtd
          then pure true
          else bind (reading (λ _. requested_vic f ratio))
              (λ vic. find_extension (timing_body (resolution_body f vic)) false))))
