-- ===== src/Encoder/Settings.antt =====
-- MFC_Encoder_Set_EncParam, the settings that are one control each, and the geometry of the buffers, in
-- ExynosVideoEncoder.c.
use exynos.Common.{ℕ, suc, zero, ◌+◌, Bool, Option, none, some, List, [], ◌∷◌, ◌==◌, if◌then◌else◌}
use exynos.Decoder.Setup.{SetupError, bad_param, api_fail}
use exynos.Encoder.Params.{EncParam, Kernel, h264, mpeg4, h263, other}
use exynos.Encoder.Controls.{
  Entry, common_entries, h264_entries, mpeg4_entries, h263_entries, ◌+++◌,
}

-- What `ext_ctrl[i]` holds after the writes: `none` is what was on the stack.
unfoldable pub entry_at : List Entry → ℕ → Option Entry
entry_at [] i = none
entry_at (w ∷ ws) i =
    let later = entry_at ws i in
    elim later [ some v ↦ some v | none ↦ (if w.index == i then some w else none) ]

-- The array from the index `i` on, `left` entries of it.
unfoldable pub array_from : List Entry → ℕ → ℕ → List (Option Entry)
array_from ws zero i = []
array_from ws (suc left) i = entry_at ws i ∷ array_from ws left (i + 1)

-- The length of ext_ctrl.
abbrev pub max_ctrl_num : ℕ
max_ctrl_num = 91

-- The writes for a codec and the number of controls.
abbrev pub entries_of : Kernel → EncParam → Option (List Entry × ℕ)
entries_of k p = elim p.codec [
  | h264 q ↦ some (common_entries p.common +++ h264_entries k p.frame_skip p.common q, 91)
  | mpeg4 q ↦ some (common_entries p.common +++ mpeg4_entries k p.frame_skip p.common q, 26)
  | h263 q ↦ some (common_entries p.common +++ h263_entries k p.frame_skip p.common q, 18)
  | other ↦ none
]

-- `none` is VIDEO_ERROR_NONE; `accepts` is the driver.
unfoldable pub set_enc_param : Kernel → (List (Option Entry) → Bool) → EncParam → Option SetupError
set_enc_param k accepts p = elim (entries_of k p) [
  | none ↦ some bad_param
  | some (ws, count) ↦ (if accepts (array_from ws count 0) then none else some api_fail)
]
