-- ===== src/Hwc/Stuck.antt =====
-- Frames of libhwc/ExynosHWC.cpp without a scaler, one after the other.
use exynos.Common.{
  ◌≡◌, refl, ap, ◌∙◌, Bool, true, false, ◌&&◌, not, ◌≤◌, Option, none, some, List, [], ◌∷◌, ltb,
  if◌then◌else◌, arith,
}
use exynos.Hwc.Types.{Env, HwcContext, Layer}
use exynos.Hwc.Prepare.{hwc_prepare, forget_skipped, compose}
use exynos.Hwc.Client.{Event, frame, turn_off, run_screen, handle_event, hwc_set_none, contexts}
use exynos.Hwc.Uses.{overlays}
use exynos.Hwc.Retry.{WantsMode, compose-Idle}
use exynos.Hwc.Scaling.{wanted_mode}

-- There is no scaler, none was asked for since `c`, and no layer is counted as an overlay.
pub record Stuck (c out : HwcContext) : Type 0 where
  pub gsc : out.gsc ≡ false
  pub mode : out.mode ≡ c.mode
  pub gsc_calls : out.gsc_calls ≡ c.gsc_calls
  pub ratio : out.max_down_ratio ≡ c.max_down_ratio
  pub num_hwc : out.num_hwc ≡ 0

-- One frame, by the three ways through hwc_prepare.
Prepares : HwcContext → List Layer → Option (HwcContext × List Layer) → Type 0
Prepares ctx list o =
    (out : HwcContext × List Layer) × (o ≡ some out)
    × Stuck ctx out.0
    × (overlays out.1 ≤ overlays list)

two_ways :
    (ctx : HwcContext) (list : List Layer) (changed try used moved : Bool)
    (skip : Option (HwcContext × List Layer)) (early out : HwcContext × List Layer)
    → used ≡ false
    → Prepares ctx list (some early)
    → Prepares ctx list (some out)
    → Prepares ctx list (
        if not changed && (not try && used)
        then skip
        else if not changed && (not try && not moved)
        then some early
        else some out)
two_ways ctx list changed try true moved skip early out e h k = absurd (cc e)
two_ways ctx list true try false moved skip early out e h k = k
two_ways ctx list false true false moved skip early out e h k = k
two_ways ctx list false false false true skip early out e h k = k
two_ways ctx list false false false false skip early out e h k = h

hwc_prepare-Stuck :
    (env : Env) (changed : Bool) (list : List Layer) (ctx : HwcContext)
    → ctx.gsc ≡ false
    → ctx.num_hwc ≡ 0
    → WantsMode env ctx list
    → Prepares ctx list (hwc_prepare env changed list ctx)
unfolding hwc_prepare forget_skipped Prepares wanted_mode
hwc_prepare-Stuck env changed list ctx h z wants =
    let clean = forget_skipped ctx in
    let idle = compose-Idle env changed list clean h wants in
    let early : Prepares ctx list (some (clean, list)) = (
      (clean, list),
      refl,
      record { gsc = h; mode = refl; gsc_calls = refl; ratio = refl; num_hwc = z },
      omega arith,
    ) in
    let composed : Prepares ctx list (some (compose env changed list clean)) = (
      compose env changed list clean,
      refl,
      record {
        gsc = idle.gsc;
        mode = idle.mode;
        gsc_calls = idle.gsc_calls;
        ratio = idle.ratio;
        num_hwc = idle.num_hwc;
      },
      omega (arith, idle.overlays_used),
    ) in
    two_ways ctx list changed ctx.try_overlay (ltb 0 ctx.num_hwc) ctx.rect_changed _ _ _ (rw z refl)
      early composed

-- The lists of all the frames ask for the mode that is set.
unfoldable pub AllWant : Env → HwcContext → List Event → Type 0
AllWant env ctx [] = Unit
AllWant env ctx (frame changed list ∷ events) = WantsMode env ctx list × AllWant env ctx events
AllWant env ctx (turn_off done0 done1 ∷ events) = AllWant env ctx events

AllWant-same :
    (env : Env) (ctx c : HwcContext) (events : List Event)
    → Stuck ctx c
    → AllWant env ctx events
    → AllWant env c events
unfolding AllWant wanted_mode
AllWant-same env ctx c [] st w = w
AllWant-same env ctx c (frame changed list ∷ events) st w =
    (λ cur first. rw (st.mode, st.ratio) (w.0 cur first), AllWant-same env ctx c events st w.1)
AllWant-same env ctx c (turn_off done0 done1 ∷ events) st w = AllWant-same env ctx c events st w

Stuck-trans : (a b c : HwcContext) → Stuck a b → Stuck b c → Stuck a c
Stuck-trans a b c h k = record {
  gsc = k.gsc;
  mode = k.mode ∙ h.mode;
  gsc_calls = k.gsc_calls ∙ h.gsc_calls;
  ratio = k.ratio ∙ h.ratio;
  num_hwc = k.num_hwc;
}

-- The rest of a run after a frame.
run_on : Env → List Event → Option (HwcContext × List Layer) → Option HwcContext
run_on env events o = elim (contexts o) [ none ↦ none | some ctx ↦ run_screen env events ctx ]

-- Once there is no scaler, as after a creation that failed, and no layer is counted as an overlay, and as long as the
-- lists ask for the mode that was asked for then: whatever frames are prepared, and however often the screen is turned
-- off between them, every call returns, no overlay is counted, and no scaler is created or destroyed.
pub run_screen-Stuck :
    (env : Env) (events : List Event) (ctx : HwcContext)
    → ctx.gsc ≡ false
    → ctx.num_hwc ≡ 0
    → AllWant env ctx events
    → (c : HwcContext) × (run_screen env events ctx ≡ some c) × Stuck ctx c
unfolding run_on run_screen AllWant handle_event hwc_set_none Prepares
run_screen-Stuck env [] ctx h z w =
    (ctx, refl, record { gsc = h; mode = refl; gsc_calls = refl; ratio = refl; num_hwc = z })
run_screen-Stuck env (frame changed list ∷ events) ctx h z (w, more) =
    let (out, e, st, le) = hwc_prepare-Stuck env changed list ctx h z w in
    let (c, run, st') =
      run_screen-Stuck env events out.0 st.gsc st.num_hwc
        (AllWant-same env ctx out.0 events st more) in
    (c, ap (run_on env events) e ∙ run, Stuck-trans ctx out.0 c st st')
run_screen-Stuck env (turn_off done0 done1 ∷ events) ctx h z w =
    let off = hwc_set_none done0 done1 ctx in
    let st : Stuck ctx off = record {
      gsc = h;
      mode = refl;
      gsc_calls = refl;
      ratio = refl;
      num_hwc = z;
    } in
    let (c, run, st') =
      run_screen-Stuck env events off st.gsc st.num_hwc (AllWant-same env ctx off events st w) in
    (c, run, Stuck-trans ctx off c st st')
