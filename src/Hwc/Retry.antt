-- ===== src/Hwc/Retry.antt =====
-- What libhwc/ExynosHWC.cpp does without a scaler.
use exynos.Common.{
  ℕ, suc, ◌+◌, ◌≡◌, refl, ◌∙◌, Bool, true, false, ◌||◌, Option, none, some, List, [], ◌∷◌, ltb,
  if◌then◌else◌, arith,
}
use exynos.Hwc.Types.{
  GscMode, m2m, output, PrivateHandle, Env, HwcContext, Layer, Composition, framebuffer, num_of_win,
}
use exynos.Hwc.Decide.{get_hwc_compos_decision, scaler_busy, with_handle}
use exynos.Hwc.Mode.{get_hwc_num_of_yuv_layers, gsc_mode_change_check, same_mode}
use exynos.Hwc.Prepare.{
  Composed, leave_to_gpu, decided, compose_layer, compose_layers, compose, free_window,
}
use exynos.Hwc.Uses.{overlays}
use exynos.Hwc.Scaling.{first_yuv, wanted_mode, mode_for, gsc_mode_change_check-first}

scaler_busy-none :
    (env : Env) (ctx : HwcContext) (k : ℕ) → ctx.gsc ≡ false → scaler_busy env ctx k ≡ true
unfolding scaler_busy
scaler_busy-none env ctx k h = rw h refl

blocked :
    (skip busy other : Bool) (d : Composition)
    → busy ≡ true
    → (if skip || (busy || other) then framebuffer else d) ≡ framebuffer
blocked true busy other d h = refl
blocked false true other d h = refl
blocked false false other d h = absurd (cc h)

no_scaler-framebuffer :
    (env : Env) (ctx : HwcContext) (cur : Layer) (k : ℕ)
    → ctx.gsc ≡ false
    → get_hwc_compos_decision env ctx cur k ≡ framebuffer
unfolding get_hwc_compos_decision
no_scaler-framebuffer env ctx cur k h = go cur.handle
  where
    go :
        (o : Option PrivateHandle)
        → (elim o as (λ _. Composition) [
          | none ↦ framebuffer
          | some handle ↦ with_handle env ctx cur k handle
        ])
          ≡ framebuffer
    go none = refl
    go (some handle) = blocked cur.skip _ _ _ (scaler_busy-none env ctx k h)

-- The scaler is as before, none of the layers is an overlay, and no window is used.
pub record Idle (c : HwcContext) (out : HwcContext × List Layer) : Type 0 where
  pub gsc : out.0.gsc ≡ false
  pub mode : out.0.mode ≡ c.mode
  pub gsc_calls : out.0.gsc_calls ≡ c.gsc_calls
  pub ratio : out.0.max_down_ratio ≡ c.max_down_ratio
  pub num_hwc : out.0.num_hwc ≡ c.num_hwc
  pub overlays_used : overlays out.1 ≡ 0

compose_layer-left :
    (env : Env) (cur : Layer) (k i : ℕ) (c : HwcContext)
    → c.gsc ≡ false
    → compose_layer env cur k i c ≡ leave_to_gpu cur k c
unfolding compose_layer
compose_layer-left env cur k i c h = go (ltb k num_of_win) cur.handle
  where
    inner : Option PrivateHandle → Composed
    inner o = elim o as (λ _. Composed) [
      | none ↦ leave_to_gpu cur k c
      | some handle ↦ decided env cur handle k i c (get_hwc_compos_decision env c cur k)
    ]

    go :
        (b : Bool) (o : Option PrivateHandle)
        → (if b then inner o else leave_to_gpu cur k c) ≡ leave_to_gpu cur k c
    go false o = refl
    go true none = refl
    go true (some handle) = rw (no_scaler-framebuffer env c cur k h) refl

compose_layers-Idle :
    (env : Env) (list : List Layer) (k i : ℕ) (c : HwcContext)
    → c.gsc ≡ false
    → Idle c (compose_layers env list k i c)
unfolding compose_layers overlays
compose_layers-Idle env [] k i c h = record {
  gsc = h;
  mode = refl;
  gsc_calls = refl;
  ratio = refl;
  num_hwc = refl;
  overlays_used = refl;
}
compose_layers-Idle env (cur ∷ list) k i c h =
    let rest = compose_layers-Idle env list k (i + 1) (record c { num_fb = suc c.num_fb }) h in
    rw (compose_layer-left env cur k i c h) (record {
      gsc = rest.gsc;
      mode = rest.mode;
      gsc_calls = rest.gsc_calls;
      ratio = rest.ratio;
      num_hwc = rest.num_hwc;
      overlays_used = omega (arith, rest.overlays_used);
    })

-- The first YUV layer, if there is one, asks for the mode that is set.
abbrev pub WantsMode : Env → HwcContext → List Layer → Type 0
WantsMode env ctx list =
    (cur : Layer) → first_yuv list ≡ some cur → wanted_mode env ctx cur ≡ ctx.mode

same_mode_refl : (m : GscMode) → same_mode m m ≡ true
same_mode_refl m2m = refl
same_mode_refl output = refl

mode_for-same :
    (env : Env) (ctx : HwcContext) (o : Option Layer)
    → ((cur : Layer) → o ≡ some cur → wanted_mode env ctx cur ≡ ctx.mode)
    → mode_for env ctx o ≡ ctx
mode_for-same env ctx none h = refl
mode_for-same env ctx (some cur) h = rw (h cur refl, same_mode_refl ctx.mode) refl

pub compose-Idle :
    (env : Env) (changed : Bool) (list : List Layer) (ctx : HwcContext)
    → ctx.gsc ≡ false
    → WantsMode env ctx list
    → Idle (record ctx { num_hwc = 0 }) (compose env changed list ctx)
unfolding compose wanted_mode
compose-Idle env changed list ctx h wants =
    let counted = record ctx { num_yuv = get_hwc_num_of_yuv_layers list } in
    let same : gsc_mode_change_check env list counted ≡ counted =
      gsc_mode_change_check-first env list counted refl
      ∙ mode_for-same env counted (first_yuv list) wants in
    let start = record counted {
      rect_changed = changed;
      win0 = free_window ctx.win0;
      win1 = free_window ctx.win1;
      num_hwc = 0;
      num_fb = 0;
    } in
    let rest = compose_layers-Idle env list 0 0 start h in
    rw same (record {
      gsc = rest.gsc;
      mode = rest.mode;
      gsc_calls = rest.gsc_calls;
      ratio = rest.ratio;
      num_hwc = rest.num_hwc;
      overlays_used = rest.overlays_used;
    })
