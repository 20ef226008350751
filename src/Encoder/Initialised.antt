-- ===== src/Encoder/Initialised.antt =====
-- Which entries of ext_ctrl MFC_Encoder_Set_EncParam writes before the driver reads them.
use exynos.Common.{
  ℕ, suc, zero, ◌+◌, ◌≡◌, refl, Bool, true, false, ◌||◌, Option, none, some, List, [], ◌∷◌, ◌++◌,
  ◌-◌, ap, ◌∙◌, ◌==◌, if◌then◌else◌, ◌⊎◌, inl, inr,
}
use mathlib.Core.Path.{subst}
use exynos.Decoder.Setup.{SetupError, bad_param, api_fail}
use exynos.Encoder.Params.{
  CodecParam, EncParam, Kernel, h264, mpeg4, h263, other, video_multi_slice_max_mb,
  video_multi_slice_max_bytes,
}
use exynos.Encoder.Controls.{Entry, entry, slice_entries, aso_entries}
use exynos.Encoder.Settings.{set_enc_param, array_from, entries_of, entry_at}

-- The slice modes that the comment in the source lists.
abbrev pub known_mode : ℕ → Bool
known_mode m = m == 0 || m == 1 || m == 3

abbrev pub is_complete : EncParam → Bool
is_complete p = elim p.codec [
  | h264 q ↦ known_mode p.common.slice_mode
  | mpeg4 q ↦ known_mode p.common.slice_mode
  | h263 q ↦ true
  | other ↦ true
]

unfoldable pub all_written : List (Option Entry) → Bool
all_written [] = true
all_written (none ∷ vs) = false
all_written (some v ∷ vs) = all_written vs

unfoldable pub indices : List Entry → List ℕ
indices [] = []
indices (w ∷ ws) = w.index ∷ indices ws

-- The numbers from `i` on, `n` of them.
unfoldable pub count_up : ℕ → ℕ → List ℕ
count_up zero i = []
count_up (suc n) i = i ∷ count_up n (i + 1)

-- Each index below `count` once and in order, in the second case without 13 and 14.
abbrev pub written_indices : ℕ → Bool → List ℕ
written_indices count complete =
    if complete then count_up count 0 else count_up 13 0 ++ count_up (count - 15) 15

slices-cases :
    (m a : ℕ)
    → ((x : ℕ) × (y : ℕ) × (slice_entries m a
          ≡ entry 13 video_multi_slice_max_mb x ∷ entry 14 video_multi_slice_max_bytes y ∷ [])
        × (known_mode m ≡ true))
      ⊎ ((slice_entries m a ≡ []) × (known_mode m ≡ false))
unfolding slice_entries
slices-cases m a = go (m == 0) (m == 1) (m == 3)
  where
    two : ℕ → ℕ → List Entry
    two x y = entry 13 video_multi_slice_max_mb x ∷ entry 14 video_multi_slice_max_bytes y ∷ []

    go :
        (b c d : Bool)
        → (let s = if b then two 1 2800 else if c then two a 2800 else if d then two 1 a else [] in
            ((x : ℕ) × (y : ℕ) × (s ≡ two x y) × ((b || c || d) ≡ true))
            ⊎ ((s ≡ []) × ((b || c || d) ≡ false)))
    go true c d = inl (1, 2800, refl, refl)
    go false true d = inl (a, 2800, refl, refl)
    go false false true = inl (1, a, refl, refl)
    go false false false = inr (refl, refl)

abbrev Writes : Kernel → EncParam → Option (List Entry × ℕ) → Type 0
Writes k p none = Unit {0}
Writes k p (some (ws, count)) =
    (indices ws ≡ written_indices count (is_complete p))
    × (all_written (array_from ws count 0) ≡ is_complete p)

entries-Writes : (k : Kernel) (p : EncParam) → Writes k p (entries_of k p)
unfolding indices all_written array_from entry_at count_up aso_entries
entries-Writes k p = go p.codec
  where
    go :
        (c : CodecParam) → Writes k (record p { codec = c }) (entries_of k (record p { codec = c }))
    go (h264 q) = elim (slices-cases p.common.slice_mode q.slice_argument) [
      | inl (x, y, e, known) ↦ rw (e, known) (refl, refl)
      | inr (e, known) ↦ rw (e, known) (refl, refl)
    ]
    go (mpeg4 q) = elim (slices-cases p.common.slice_mode q.slice_argument) [
      | inl (x, y, e, known) ↦ rw (e, known) (refl, refl)
      | inr (e, known) ↦ rw (e, known) (refl, refl)
    ]
    go (h263 q) = (refl, refl)
    go other = tt

-- For AVC, MPEG-4 and H.263, MFC_Encoder_Set_EncParam writes each control of the array that it passes once and in order,
-- except for the controls 13 and 14, which AVC and MPEG-4 leave as they were on the stack in a slice mode other than 0,
-- 1 and 3: a driver that refuses such controls fails exactly then.
pub set_enc_param-writes :
    (k : Kernel) (p : EncParam) (ws : List Entry) (count : ℕ)
    → entries_of k p ≡ some (ws, count)
    → (indices ws ≡ written_indices count (is_complete p))
      × (all_written (array_from ws count 0) ≡ is_complete p)
      × (set_enc_param k all_written p ≡ (if is_complete p then none else some api_fail))
unfolding set_enc_param
set_enc_param-writes k p ws count e =
    let answer : Option (List Entry × ℕ) → Option SetupError = λ o. elim o [
      | none ↦ some bad_param
      | some (vs, n) ↦ (if all_written (array_from vs n 0) then none else some api_fail)
    ] in
    let (order, written) = subst (Writes k p) e (entries-Writes k p) in
    (order, written, ap answer e ∙ ap (λ (b : Bool). if b then none else some api_fail) written)
