-- ===== src/Hwc/Skip.antt =====
-- get_hwc_ui_lay_skipdraw_decision of libhwc/ExynosHWC.cpp: layers that the GPU draws and that have not changed are not
-- drawn again. `none` is an access outside an array.
use exynos.Common.{
  ℕ, zero, suc, ◌+◌, Bool, true, false, Option, none, some, List, [], ◌∷◌, ltb, leb, ◌==◌,
  get_elem?, set, if◌then◌else◌,
}
use exynos.Hwc.Types.{
  PixelFormat, rgba_8888, bgra_8888, rgbx_8888, rgb_565, bgrx_8888, Layer, framebuffer, overlay,
  VirtualWindow, Env, HwcContext, num_of_dummy_win,
}

-- `(uint32_t)cur->handle`
abbrev pub address : Layer → ℕ
address cur = elim cur.handle [ none ↦ 0 | some handle ↦ handle.address ]

-- `list->hwLayers[win_virt[cnt].layer_index]`
abbrev pub layer_of : VirtualWindow → List Layer → Option Layer
layer_of v list = elim v.index [ none ↦ none | some i ↦ get_elem? list i ]

-- The first `n` windows whose layer has the buffer of before.
unfoldable pub count_same : ℕ → List VirtualWindow → List Layer → Option ℕ
count_same zero vs list = some 0
count_same (suc n) [] list = none
count_same (suc n) (v ∷ vs) list = elim (layer_of v list) [
  | none ↦ none
  | some cur ↦ elim (count_same n vs list) [
    | none ↦ none
    | some k ↦ some (if v.prev_buf == address cur then suc k else k)
  ]
]

-- What is written to a window and to its layer.
abbrev pub Mark : Type 0
Mark = Layer → VirtualWindow → VirtualWindow × Layer

abbrev pub draw_again : Mark
draw_again cur v = (
  record v { prev_buf = address cur; reserved = false },
  record cur { composition = framebuffer },
)

abbrev pub leave_out : Mark
leave_out cur v = (record v { reserved = true }, record cur { composition = overlay })

abbrev pub set_layer : VirtualWindow → Layer → List Layer → List Layer
set_layer v cur list = elim v.index [ none ↦ list | some i ↦ set list i cur ]

unfoldable pub mark_layers :
    Mark → ℕ → List VirtualWindow → List Layer → Option (List VirtualWindow × List Layer)
mark_layers f zero vs list = some (vs, list)
mark_layers f (suc n) [] list = none
mark_layers f (suc n) (v ∷ vs) list = elim (layer_of v list) [
  | none ↦ none
  | some cur ↦
      let (v', cur') = f cur v in
      elim (mark_layers f n vs (set_layer v cur' list)) [
        | none ↦ none
        | some (vs', list') ↦ some (v' ∷ vs', list')
      ]
]

abbrev pub drawn_format : Env → PixelFormat → Bool
drawn_format env rgba_8888 = true
drawn_format env bgra_8888 = true
drawn_format env rgbx_8888 = true
drawn_format env rgb_565 = true
drawn_format env bgrx_8888 = env.support_bgrx_8888
drawn_format env _ = false

abbrev pub is_drawn : Env → Layer → Bool
is_drawn env cur = elim cur.handle [ none ↦ false | some handle ↦ drawn_format env handle.format ]

-- The layer with index `i` is noted if the GPU draws it, `n` windows being used already.
unfoldable pub note_layer :
    Env → ℕ → ℕ → Layer → List VirtualWindow → ℕ × List VirtualWindow × Layer
note_layer env i n cur vs =
    let drawn = record cur { composition = framebuffer } in
    if is_drawn env cur
    then (
      suc n,
      set vs n (record { prev_buf = address cur; index = some i; reserved = false }),
      drawn,
    )
    else elim cur.handle [ none ↦ (n, vs, drawn) | some _ ↦ (n, vs, cur) ]

-- The layers from index `i` on: how many windows are used then, the windows and the layers.
unfoldable pub note_layers :
    Env → ℕ → ℕ → List Layer → List VirtualWindow → ℕ × List VirtualWindow × List Layer
note_layers env i n [] vs = (n, vs, [])
note_layers env i n (cur ∷ list) vs =
    let (n', noted, cur') = note_layer env i n cur vs in
    let (m, vs', list') = note_layers env (i + 1) n' list noted in
    if leb num_of_dummy_win n then (n, vs, cur ∷ list) else (m, vs', cur' ∷ list')

-- THRES_FOR_SWAP
abbrev pub thres_for_swap : ℕ
thres_for_swap = 1800

-- A frame with no layer for the GPU; now and then the buffers are swapped all the same.
unfoldable pub count_idle_frame : HwcContext → HwcContext
count_idle_frame ctx =
    let n = ctx.ui_skip_frames + 1 in
    if leb thres_for_swap n
    then record ctx { ui_skip_frames = 0; num_fb_prev = 1 }
    else record ctx { ui_skip_frames = n }

-- The windows and layers that `mark_layers` gives, in the context.
abbrev pub with_marks :
    HwcContext → Option (List VirtualWindow × List Layer) → Option (HwcContext × List Layer)
with_marks ctx none = none
with_marks ctx (some (vs, list)) = some (record ctx { virt = vs }, list)

-- The layers are known: have they changed, or is it time to draw them again?
unfoldable pub compare_layers : HwcContext → ℕ → List Layer → Option (HwcContext × List Layer)
compare_layers ctx total list = elim (count_same total ctx.virt list) [
  | none ↦ none
  | some k ↦
      let same = if leb thres_for_swap ctx.ui_skip_frames then 0 else k in
      if same == total
      then with_marks
          (record ctx { num_fb = 0; num_fb_skip = total; ui_skip_frames = ctx.ui_skip_frames + 1 })
          (mark_layers leave_out total ctx.virt list)
      else with_marks (record ctx { num_fb = total; num_fb_skip = 0; ui_skip_frames = 0 })
          (mark_layers draw_again total ctx.virt list)
]

unfoldable pub get_hwc_ui_lay_skipdraw_decision :
    Env → HwcContext → List Layer → Option (HwcContext × List Layer)
get_hwc_ui_lay_skipdraw_decision env ctx list =
    let total = ctx.num_fb + ctx.num_fb_skip in
    let (n, vs, list') = note_layers env 0 0 list ctx.virt in
    let noted = record ctx {
      num_fb_skip = 0;
      virt = vs;
      skip_initialized = if n == total then true else ctx.skip_initialized;
    } in
    if ltb num_of_dummy_win total
    then some (ctx, list)
    else if total == 0
    then some (count_idle_frame ctx, list)
    else if ctx.skip_initialized
    then compare_layers ctx total list
    else some (noted, list')
