-- ===== src/Hwc/Windows.antt =====
-- The windows that hwc_prepare of libhwc/ExynosHWC.cpp gives to layers.
use exynos.Common.{
  ℕ, zero, suc, ◌+◌, ◌≤◌, ◌<◌, ◌≡◌, refl, ap, ◌∙◌, Bool, true, false, not, ◌&&◌, ◌||◌,
  if◌then◌else◌, Option, none, some, List, [], ◌∷◌, ◌++◌, ltb, length, length-append, append_assoc,
  append-nil, arith, Bool-cases, ltb→lt, inl, inr,
}
use exynos.Hwc.Types.{
  PrivateHandle, Composition, framebuffer, overlay, Layer, Window, Env, HwcContext, num_of_win,
}
use exynos.Hwc.Decide.{get_hwc_compos_decision}
use exynos.Hwc.Mode.{get_hwc_num_of_yuv_layers, gsc_mode_change_check}
use exynos.Hwc.Assign.{Same, Takes, Outcome, Same-refl, assign-Assigns}
use exynos.Hwc.Uses.{
  Holds, Uses, overlays, Handled, overlays-append, get_elem?-end, get_elem?-lt, Holds-append,
  Uses-append,
}
use exynos.Hwc.Prepare.{
  hwc_prepare, forget_skipped, free_window, Assigned, compose_layer, compose_layers, compose,
  Composed, leave_to_gpu, after_assign, decided,
}

module _ (done : List Layer) (cur : Layer) (c c' : HwcContext) where
  abbrev left : Layer
  left = record cur { composition = framebuffer }

  abbrev taken : Layer
  taken = record cur { composition = overlay; clear_fb = true }

  leave-Handled :
      (k : ℕ)
      → Handled done k c
      → Same c c'
      → Handled (done ++ left ∷ []) k (record c' { num_fb = suc c'.num_fb })
  unfolding overlays
  leave-Handled k h same = record {
    windows = rw (same.win0, same.win1) (Uses-append done (left ∷ []) k c.win0 c.win1 h.windows);
    num_hwc = same.num_hwc ∙ h.num_hwc;
    overlays_used = omega (arith, overlays-append done (left ∷ []), h.overlays_used);
    num_fb = omega (arith, length-append {0} done (left ∷ []), h.num_fb, same.num_fb);
  }

  Holds-taken :
      (w : Window) → w.reserved ≡ true → w.layer_index ≡ length done → Holds (done ++ taken ∷ []) w
  Holds-taken w r i = record {
    reserved = r;
    shown = (taken, rw i (get_elem?-end done taken), refl);
  }

  take-Uses :
      (k : ℕ)
      → k < num_of_win
      → Uses done k c.win0 c.win1
      → Takes k (length done) c c'
      → Uses (done ++ taken ∷ []) (suc k) c'.win0 c'.win1
  take-Uses zero lt u t = (Holds-taken c'.win0 t.reserved t.layer_index, rw t.other u.1)
  take-Uses (suc zero) lt u t =
      let before = get_elem?-lt done c.win0.layer_index u.0.shown.0 u.0.shown.1 in
      (
        rw t.other (Holds-append done (taken ∷ []) c.win0 u.0),
        Holds-taken c'.win1 t.reserved t.layer_index,
        rw (t.other, t.layer_index) before,
      )
  take-Uses (suc (suc k)) lt u t = absurd (omega arith)

  take-Handled :
      (k : ℕ)
      → k < num_of_win
      → Handled done k c
      → Takes k (length done) c c'
      → Handled (done ++ taken ∷ []) (suc k) (record c' { num_hwc = suc c'.num_hwc })
  unfolding overlays
  take-Handled k lt h t = record {
    windows = take-Uses k lt h.windows t;
    num_hwc = ap suc (t.num_hwc ∙ h.num_hwc);
    overlays_used = omega (arith, overlays-append done (taken ∷ []), h.overlays_used);
    num_fb = omega (arith, length-append {0} done (taken ∷ []), h.num_fb, t.num_fb);
  }

-- What one layer leaves, `done` being those before it.
abbrev Step : List Layer → Composed → Type 0
Step done (c, cur, k) = Handled (done ++ cur ∷ []) k c

compose_layer-Step :
    (env : Env) (done : List Layer) (cur : Layer) (k : ℕ) (c : HwcContext)
    → Handled done k c
    → Step done (compose_layer env cur k (length done) c)
unfolding compose_layer
compose_layer-Step env done cur k c h = elim (Bool-cases (ltb k num_of_win)) [
  | inl lt ↦ rw lt (by_handle (ltb→lt k num_of_win lt) cur.handle)
  | inr ge ↦ rw ge (leave-Handled done cur c c k h (Same-refl k 0 c))
]
  where
    by_answer :
        k < num_of_win
        → (a : Assigned) → Outcome k (length done) c a
        → Step done (after_assign cur k a)
    by_answer lt (true, c') o = take-Handled done cur c c' k lt h o
    by_answer lt (false, c') o = leave-Handled done cur c c' k h o

    by_decision :
        k < num_of_win
        → (handle : PrivateHandle) (d : Composition)
        → Step done (decided env cur handle k (length done) c d)
    by_decision lt handle framebuffer = leave-Handled done cur c c k h (Same-refl k 0 c)
    by_decision lt handle overlay =
        by_answer lt _ (assign-Assigns k (length done) c env cur handle).outcome

    by_handle :
        k < num_of_win
        → (o : Option PrivateHandle)
        → Step done (elim o as (λ _. Composed) [
          | none ↦ leave_to_gpu cur k c
          | some handle ↦
              decided env cur handle k (length done) c (get_hwc_compos_decision env c cur k)
        ])
    by_handle lt none = leave-Handled done cur c c k h (Same-refl k 0 c)
    by_handle lt (some handle) = by_decision lt handle _

compose_layers-Handled :
    (env : Env) (list done : List Layer) (k i : ℕ) (c : HwcContext)
    → i ≡ length done
    → Handled done k c
    → let out = compose_layers env list k i c in (k' : ℕ) × Handled (done ++ out.1) k' out.0
unfolding compose_layers
compose_layers-Handled env [] done k i c e h = (k, rw (append-nil done) h)
compose_layers-Handled env (cur ∷ list) done k i c e h =
    let (c', cur', k') = compose_layer env cur k i c in
    let step : Handled (done ++ cur' ∷ []) k' c' = rw e (compose_layer-Step env done cur k c h) in
    let next : i + 1 ≡ length (done ++ cur' ∷ []) =
      omega (arith, length-append {0} done (cur' ∷ [])) in
    let (k'', after) =
      compose_layers-Handled env list (done ++ cur' ∷ []) k' (i + 1) c' next step in
    (k'', rw (← append_assoc done (cur' ∷ []) (compose_layers env list k' (i + 1) c').1) after)

-- What hwc_prepare leaves of a list of layers: the layers `done` and the number of windows used.
abbrev pub Placed : List Layer → HwcContext × List Layer → Type 0
Placed list (c, done) = (length done ≡ length list) × (k : ℕ) × (k ≤ num_of_win) × Handled done k c

length-compose_layers :
    (env : Env) (list : List Layer) (k i : ℕ) (c : HwcContext)
    → length (compose_layers env list k i c).1 ≡ length list
unfolding compose_layers
length-compose_layers env [] k i c = refl
length-compose_layers env (cur ∷ list) k i c =
    let (c', cur', k') = compose_layer env cur k i c in
    ap suc (length-compose_layers env list k' (i + 1) c')

Uses-le : (done : List Layer) (k : ℕ) (w v : Window) → Uses done k w v → k ≤ num_of_win
Uses-le done zero w v h = omega arith
Uses-le done (suc zero) w v h = omega arith
Uses-le done (suc (suc zero)) w v h = omega arith
Uses-le done (suc (suc (suc k))) w v h = absurd h

pub compose-Placed :
    (env : Env) (changed : Bool) (list : List Layer) (ctx : HwcContext)
    → Placed list (compose env changed list ctx)
unfolding compose overlays
compose-Placed env changed list ctx =
    let checked =
      gsc_mode_change_check env list (record ctx { num_yuv = get_hwc_num_of_yuv_layers list }) in
    let start = record checked {
      rect_changed = changed;
      win0 = free_window checked.win0;
      win1 = free_window checked.win1;
      num_hwc = 0;
      num_fb = 0;
    } in
    let none_yet : Handled [] 0 start = record {
      windows = (refl, refl);
      num_hwc = refl;
      overlays_used = refl;
      num_fb = refl;
    } in
    let (k, after) = compose_layers-Handled env list [] 0 0 start refl none_yet in
    (length-compose_layers env list 0 0 start, k, Uses-le _ k _ _ after.windows, after)

-- hwc_prepare composes the layers anew: neither the decision on drawing nor the early return is taken.
abbrev pub composes : Bool → HwcContext → Bool
composes changed ctx = changed || (ctx.try_overlay || (not (ltb 0 ctx.num_hwc) && ctx.rect_changed))

-- Of the three ways through hwc_prepare the last one.
last_way :
    {A : Type 0} (changed try used moved : Bool) (skip : Option A) (early out : A)
    → (changed || (try || (not used && moved))) ≡ true
    → (if not changed && (not try && used)
        then skip
        else if not changed && (not try && not moved)
        then some early
        else some out)
      ≡ some out
last_way true try used moved skip early out h = refl
last_way false true used moved skip early out h = refl
last_way false false true moved skip early out h = absurd (cc h)
last_way false false false true skip early out h = refl
last_way false false false false skip early out h = absurd (cc h)

-- For every list of layers, and every state in which hwc_prepare composes the layers anew, that is if the geometry has
-- changed, if it is to try for overlays again, or if it has no overlay and the rectangles have changed: it returns, and
-- it uses two windows at most, and as many as it makes overlays. The windows that are used come first, each has an
-- overlay of the list, and the layer of the first window lies below that of the second; the others are free. The two
-- counts add up to the number of layers.
pub hwc_prepare-Placed :
    (env : Env) (changed : Bool) (list : List Layer) (ctx : HwcContext)
    → composes changed ctx ≡ true
    → (out : HwcContext × List Layer) × (hwc_prepare env changed list ctx ≡ some out)
      × Placed list out
unfolding hwc_prepare
hwc_prepare-Placed env changed list ctx h =
    let out = compose env changed list (forget_skipped ctx) in
    (
      out,
      last_way changed ctx.try_overlay (ltb 0 ctx.num_hwc) ctx.rect_changed _ _ out h,
      compose-Placed env changed list (forget_skipped ctx),
    )
