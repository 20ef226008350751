-- ===== src/Hwc/Frames.antt =====
-- No frame reads outside the list of layers in libhwc/ExynosHWC.cpp.
use exynos.Common.{
  ℕ, zero, suc, ◌+◌, ◌≤◌, ◌≡◌, refl, Bool, true, false, Option, some, List, [], ◌∷◌, ltb, leb, ◌==◌,
  if◌then◌else◌, arith, Bool-cases, inl, inr, ◌⊎◌, ==→eq, length,
}
use exynos.Hwc.Types.{Env, HwcContext, Layer, VirtualWindow, num_of_dummy_win}
use exynos.Hwc.Noted.{
  Below, Marked, NotedAll, KeepsIndex, count_same-some, mark_layers-Marked, note_layers-NotedAll,
}
use exynos.Hwc.Skip.{
  Mark, mark_layers, note_layers, draw_again, leave_out, compare_layers, with_marks, thres_for_swap,
  count_idle_frame, get_hwc_ui_lay_skipdraw_decision,
}
use exynos.Hwc.Prepare.{forget_skipped}

-- Between two frames, the list of the last having had `n` layers.
pub record Ready (n : ℕ) (c : HwcContext) : Type 0 where
  pub windows : length c.virt ≡ num_of_dummy_win
  pub noted : c.skip_initialized ≡ true → Below n (c.num_fb + c.num_fb_skip) c.virt

-- No access outside an array, and ready again.
pub record Goes (n : ℕ) (out : Option (HwcContext × List Layer)) : Type 0 where
  pub context : HwcContext
  pub layers : List Layer
  pub returns : out ≡ some (context, layers)
  pub ready : Ready n context
  pub size : length layers ≡ n

pub Goes-if :
    (n : ℕ) (test : Bool) (first other : Option (HwcContext × List Layer))
    → (test ≡ true → Goes n first)
    → (test ≡ false → Goes n other)
    → Goes n (if test then first else other)
Goes-if n true first other h k = h refl
Goes-if n false first other h k = k refl

with_marks-Goes :
    (c : HwcContext) (n m : ℕ) (out : Option (List VirtualWindow × List Layer))
    → c.num_fb + c.num_fb_skip ≡ m
    → Marked n m num_of_dummy_win out
    → Goes n (with_marks c out)
with_marks-Goes c n m out e h = rw h.returns (record {
  context = record c { virt = h.windows };
  layers = h.layers;
  returns = refl;
  ready = record { windows = h.count; noted = λ _. rw e h.below };
  size = h.total;
})

compare_layers-Goes :
    (c : HwcContext) (m : ℕ) (list : List Layer)
    → length c.virt ≡ num_of_dummy_win
    → Below (length list) m c.virt
    → Goes (length list) (compare_layers c m list)
unfolding compare_layers
compare_layers-Goes c m list two below =
    let (k, e) = count_same-some m c.virt list below in
    rw (e, compare_layers) (go (if leb thres_for_swap c.ui_skip_frames then 0 else k))
  where
    n : ℕ
    n = length list

    marked : (f : Mark) → KeepsIndex f → Marked n m num_of_dummy_win (mark_layers f m c.virt list)
    marked f keep = rw (← two) (mark_layers-Marked f n m c.virt list keep refl below)

    skipping : HwcContext
    skipping = record c { num_fb = 0; num_fb_skip = m; ui_skip_frames = c.ui_skip_frames + 1 }

    drawing : HwcContext
    drawing = record c { num_fb = m; num_fb_skip = 0; ui_skip_frames = 0 }

    go :
        (same : ℕ)
        → Goes n (
            if same == m
            then with_marks skipping (mark_layers leave_out m c.virt list)
            else with_marks drawing (mark_layers draw_again m c.virt list))
    go same =
        Goes-if n (same == m) _ _
          (λ _. with_marks-Goes skipping n m _ (omega arith) (marked leave_out (λ cur v. refl)))
          (λ _. with_marks-Goes drawing n m _ (omega arith) (marked draw_again (λ cur v. refl)))

Below-le : (n k m : ℕ) (vs : List VirtualWindow) → k ≤ m → Below n m vs → Below n k vs
Below-le n zero m vs le h = tt
Below-le n (suc k) zero vs le h = absurd (omega arith)
Below-le n (suc k) (suc m) [] le h = absurd h
Below-le n (suc k) (suc m) (v ∷ vs) le h = (h.0, Below-le n k m vs (omega arith) h.1)

idle-Goes :
    (c : HwcContext) (list : List Layer)
    → Ready (length list) c
    → Goes (length list) (some (count_idle_frame c, list))
unfolding count_idle_frame
idle-Goes c list h = record {
  context = count_idle_frame c;
  layers = list;
  returns = refl;
  ready = go (leb thres_for_swap (c.ui_skip_frames + 1));
  size = refl;
}
  where
    go :
        (b : Bool)
        → Ready (length list) (
            if b
            then record c { ui_skip_frames = 0; num_fb_prev = 1 }
            else record c { ui_skip_frames = c.ui_skip_frames + 1 })
    go true = record { windows = h.windows; noted = h.noted }
    go false = record { windows = h.windows; noted = h.noted }

-- The windows that have been noted when there are as many as layers for the GPU.
when_noted :
    (n m fb fb_skip : ℕ) (initialized : Bool) (vs : List VirtualWindow)
    → initialized ≡ false
    → Below n m vs
    → (if m == (fb + fb_skip) then true else initialized) ≡ true
    → Below n (fb + 0) vs
when_noted n m fb fb_skip initialized vs off h e =
    Below-le n (fb + 0) m vs (go (Bool-cases (m == (fb + fb_skip)))) h
  where
    go : (((m == (fb + fb_skip)) ≡ true) ⊎ ((m == (fb + fb_skip)) ≡ false)) → fb + 0 ≤ m
    go (inl same) = omega (arith, ==→eq m (fb + fb_skip) same)
    go (inr other) = absurd (cc (rw (other, off) at e))

pub skipdraw-Goes :
    (env : Env) (c : HwcContext) (list : List Layer)
    → Ready (length list) c
    → Goes (length list) (get_hwc_ui_lay_skipdraw_decision env c list)
unfolding get_hwc_ui_lay_skipdraw_decision
skipdraw-Goes env c list h =
    Goes-if n (ltb num_of_dummy_win (c.num_fb + c.num_fb_skip)) _ _ (λ _. as_before)
      (λ _.
        Goes-if n ((c.num_fb + c.num_fb_skip) == 0) _ _ (λ _. idle-Goes c list h)
          (λ _.
            Goes-if n c.skip_initialized _ _
              (λ on. compare_layers-Goes c (c.num_fb + c.num_fb_skip) list h.windows (h.noted on))
              noting))
  where
    n : ℕ
    n = length list

    as_before : Goes n (some (c, list))
    as_before = record { context = c; layers = list; returns = refl; ready = h; size = refl }

    out : ℕ × List VirtualWindow × List Layer
    out = note_layers env 0 0 list c.virt

    all : NotedAll n n out
    all =
        note_layers-NotedAll env n 0 0 list c.virt (omega arith)
          (record { below = tt; count = h.windows })

    after : HwcContext
    after = record c {
      num_fb_skip = 0;
      virt = out.1;
      skip_initialized = if out.0 == (c.num_fb + c.num_fb_skip) then true else c.skip_initialized;
    }

    noting : c.skip_initialized ≡ false → Goes n (some (after, out.2))
    noting off = record {
      context = after;
      layers = out.2;
      returns = refl;
      ready = record {
        windows = all.noted.count;
        noted =
            when_noted n out.0 c.num_fb c.num_fb_skip c.skip_initialized out.1 off all.noted.below;
      };
      size = all.total;
    }

pub forget_skipped-Ready : (c : HwcContext) (n : ℕ) → Ready n (forget_skipped c)
unfolding forget_skipped
forget_skipped-Ready c n = record { windows = refl; noted = λ h. absurd (cc h) }
