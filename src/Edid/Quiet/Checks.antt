-- ===== src/Edid/Quiet/Checks.antt =====
-- The checks of libedid.c once the EDID is there: they stop, and leave the state alone.
pub mod Entry
use exynos.Common.{
  ℕ, zero, suc, ◌+◌, ◌-◌, ◌*◌, ◌≤◌, ◌<◌, ◌≡◌, refl, ap, Bool, true, false, not, ◌||◌, ◌&&◌, Run,
  done, List, Option, none, some, Meets, Ends, Meets-bind, Meets-mono, Ends-bind, ltb, leb, ◌==◌,
  bit_and, arith, Bool-cases, inl, inr, leb→le, if◌then◌else◌,
}
use exynos.Common.Outcome.{◌>>=◌}
use exynos.Ddc.{Host}
use exynos.Edid.Params.{VideoFormat, PixelAspectRatio, format_index, ratio_16_9}
use exynos.Edid.State.{State, M, pure, bind, reading, block_size, byte, edid_valid, edid_read}
use exynos.Edid.Loaded.{IsValid}
use exynos.Edid.Loaded.Read.{edid_read-cached}
use exynos.Edid.Blocks.{get_vsdb_offset, is_contain_vic}
use exynos.Edid.Timings.{is_contain_video_dtd}
use exynos.Edid.Tables.{params_of}
use exynos.Edid.Query.{
  each_extension, find_extension, unless_false, check_hdmi_mode, is_timing_extension, timing_body,
  vsdb_extension, at_vsdb, resolution_body, requested_vic, established_timing, is_640x480,
  check_resolution,
}
use exynos.Edid.Quiet.{byte-Ends}
use exynos.Edid.Quiet.Walks.{
  get_vsdb_offset-Ends, is_contain_vic-Ends, is_contain_video_dtd-Ends, params_of-Ends,
}

-- The EDID has been read.
pub record IsReady (s : State) : Type 0 where
  pub valid : IsValid s
  pub present : edid_valid s ≡ true

-- The code stops, and if it returns then the state is what it was: no device was asked.
abbrev pub Quiet : {A : Type 0} → State → Run (A × State) → Type 0
Quiet {A} s m = Meets {A = A × State} (λ r. r.1 ≡ s) m

pub reading-Quiet :
    {A : Type 0} (s : State) (f : State → Run A) → Ends (f s) → Quiet s (reading f s)
reading-Quiet s f h = Meets-bind (λ _. Unit) (λ r. r.1 ≡ s) (f s) _ h (λ a _. refl)

pub bind-Quiet :
    {A B : Type 0} (s : State) (m : M A) (f : A → M B)
    → Quiet s (m s)
    → ((a : A) → Quiet s (f a s))
    → Quiet s (bind m f s)
bind-Quiet s m f h k = Meets-bind (λ r. r.1 ≡ s) (λ r. r.1 ≡ s) (m s) _ h (λ r e. rw e (k r.0))

each_extension-Quiet :
    {A : Type 0} (s : State) (body : ℕ → M (Option A))
    → ((i : ℕ) → Quiet s (body i s))
    → (fuel i : ℕ) → s.extensions + 2 ≤ i + fuel
    → 0 < fuel
    → Quiet s (each_extension fuel i body s)
unfolding each_extension
each_extension-Quiet s body h zero i lt p = absurd (omega arith)
each_extension-Quiet s body h (suc fuel) i lt p = elim (Bool-cases (leb i s.extensions)) [
  | inr e ↦ rw (e, each_extension) refl
  | inl e ↦
      rw (e, each_extension)
        (Meets-bind (λ r. r.1 ≡ s) (λ r. r.1 ≡ s) (body i s) _ (h i)
          (λ r q. step r.0 r.1 q (
            each_extension-Quiet s body h fuel (i + 1) (omega arith)
              (omega (arith, leb→le i s.extensions e)))))
]
  where
    step :
        (r : Option _) (t : State)
        → t ≡ s
        → Quiet s (each_extension fuel (i + 1) body s)
        → Quiet s (elim r [ some a ↦ done (some a, t) | none ↦ each_extension fuel (i + 1) body t ])
    step (some a) t q k = q
    step none t q k = rw q k

pub find_extension-Quiet :
    {A : Type 0} (s : State) (body : ℕ → M (Option A)) (a : A)
    → ((i : ℕ) → Quiet s (body i s))
    → Quiet s (find_extension body a s)
find_extension-Quiet s body a h =
    Meets-bind (λ r. r.1 ≡ s) (λ r. r.1 ≡ s) (each_extension (suc s.extensions) 1 body s) _
      (each_extension-Quiet s body h (suc s.extensions) 1 (omega arith) (omega arith))
      (λ r q. step r.0 r.1 q)
  where
    step :
        (r : Option _) (t : State)
        → t ≡ s
        → Quiet s (elim r [ some b ↦ done (b, t) | none ↦ done (a, t) ])
    step (some b) t q = q
    step none t q = q

established_timing-Ends : (s : State) (f : VideoFormat) → Ends (established_timing f s)
unfolding established_timing
established_timing-Ends s f = elim (Bool-cases (is_640x480 f)) [
  | inl y ↦ rw (y, established_timing) (Ends-bind (byte s 0x23) _ (byte-Ends s 0x23) (λ b. tt))
  | inr n ↦ rw (n, established_timing) tt
]

requested_vic-Ends : (f : VideoFormat) (ratio : PixelAspectRatio) → Ends (requested_vic f ratio)
unfolding requested_vic
requested_vic-Ends f ratio = Ends-bind (params_of f) _ (params_of-Ends f) (λ p. ground arith)

module _ (host : Host) (s : State) (r : IsReady s) where
  -- With the EDID there, EDIDRead does nothing.
  pub after_read-Quiet :
      {A : Type 0} (a : A) (k : M A) → Quiet s (k s) → Quiet s (unless_false (edid_read host) a k s)
  after_read-Quiet a k h = rw (edid_read-cached host s r.present) h

  pub check_hdmi_mode-Quiet : Quiet s (check_hdmi_mode host s)
  unfolding check_hdmi_mode
  check_hdmi_mode-Quiet = after_read-Quiet false _ (
      find_extension-Quiet s _ false (λ i.
        bind-Quiet s (reading (λ t. get_vsdb_offset t i)) _
          (reading-Quiet s (λ t. get_vsdb_offset t i) (get_vsdb_offset-Ends s i r.valid))
          (λ o. refl)))

  is_timing_extension-Quiet : (i : ℕ) → Quiet s (is_timing_extension host i s)
  unfolding is_timing_extension
  is_timing_extension-Quiet i = elim (Bool-cases (not (edid_valid s) || ltb s.extensions i)) [
    | inl e ↦ rw (e, is_timing_extension) refl
    | inr e ↦
        rw (e, is_timing_extension)
          (bind-Quiet s (reading (λ t. byte t (i * block_size))) _
            (reading-Quiet s (λ t. byte t (i * block_size)) (byte-Ends s _))
            (λ tag. elim (Bool-cases (tag == 0x02)) [
              | inr n ↦ rw n refl
              | inl y ↦ rw y (
                  bind-Quiet s (reading (λ t. byte t (i * block_size + 1))) _
                    (reading-Quiet s (λ t. byte t (i * block_size + 1)) (byte-Ends s _))
                    (λ rev. elim (Bool-cases (rev == 3)) [
                      | inl three ↦ rw three refl
                      | inr other ↦ rw other (
                          bind-Quiet s (check_hdmi_mode host) _ check_hdmi_mode-Quiet
                            (elim [ true ↦ refl | false ↦ refl ]))
                    ]))
            ]))
  ]

  pub timing_body-Quiet :
      {A : Type 0} (body : ℕ → M (Option A)) (i : ℕ)
      → Quiet s (body i s)
      → Quiet s (timing_body host body i s)
  timing_body-Quiet body i h =
      bind-Quiet s (is_timing_extension host i) _ (is_timing_extension-Quiet i)
        (elim [ true ↦ h | false ↦ refl ])

  pub vsdb_extension-Quiet :
      {A : Type 0} (body : ℕ → M (Option A)) (i : ℕ)
      → ((start : ℕ) → Quiet s (body start s))
      → Quiet s (vsdb_extension host body i s)
  vsdb_extension-Quiet body i h = timing_body-Quiet (at_vsdb body) i (
      bind-Quiet s (reading (λ t. get_vsdb_offset t i)) _
        (reading-Quiet s (λ t. get_vsdb_offset t i) (get_vsdb_offset-Ends s i r.valid))
        (λ start. elim (Bool-cases (ltb 0 start)) [ inl y ↦ rw y (h start) | inr n ↦ rw n refl ]))

  -- Once the EDID has been read, CheckResolution stops for every format and aspect ratio, and where it
  -- returns, the state is as it was.
  pub check_resolution-Quiet :
      (f : VideoFormat) (ratio : PixelAspectRatio) → Quiet s (check_resolution host f ratio s)
  unfolding check_resolution
  check_resolution-Quiet f ratio = after_read-Quiet false _ (
      bind-Quiet s (reading (established_timing f)) _
        (reading-Quiet s (established_timing f) (established_timing-Ends s f))
        (elim [
          | true ↦ refl
          | false ↦
              bind-Quiet s (reading (λ t. is_contain_video_dtd t 0 f)) _
                (reading-Quiet s (λ t. is_contain_video_dtd t 0 f)
                  (is_contain_video_dtd-Ends s 0 f))
                (elim [
                  | true ↦ refl
                  | false ↦
                      bind-Quiet s (reading (λ _. requested_vic f ratio)) _
                        (reading-Quiet s (λ _. requested_vic f ratio) (requested_vic-Ends f ratio))
                        (λ vic. find_extension-Quiet s _ false (λ i.
                          timing_body-Quiet (resolution_body f vic) i (extension-Quiet i vic)))
                ])
        ]))
    where
      extension-Quiet : (i vic : ℕ) → Quiet s (resolution_body f vic i s)
      extension-Quiet i vic =
          bind-Quiet s (reading (λ t. is_contain_vic t i vic)) _
            (reading-Quiet s (λ t. is_contain_vic t i vic) (is_contain_vic-Ends s i vic r.valid))
            (elim [
              | true ↦ refl
              | false ↦
                  bind-Quiet s (reading (λ t. is_contain_video_dtd t i f)) _
                    (reading-Quiet s (λ t. is_contain_video_dtd t i f)
                      (is_contain_video_dtd-Ends s i f))
                    (λ has. refl)
            ])
