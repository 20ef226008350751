-- ===== src/Hwc/Assign.antt =====
-- What assign_overlay_window of libhwc/ExynosHWC.cpp does to the windows.
use exynos.Common.{ℕ, zero, suc, ◌≡◌, refl, Bool, true, false, ◌&&◌, leb, if◌then◌else◌}
use exynos.Hwc.Types.{
  PrivateHandle, Area, Layer, Window, Env, HwcContext, num_of_win, win_at, set_prev,
}
use exynos.Hwc.Decide.{calculate_rect}
use exynos.Hwc.Prepare.{
  Assigned, reserve, refuse, move_window, new_place, same_place_again, assign_overlay_window,
  is_busy, same_place, same_size,
}

abbrev other_win : ℕ → HwcContext → Window
other_win zero c = c.win1
other_win (suc k) c = c.win0

-- Both windows and the counts are as they were.
pub record Same (c c' : HwcContext) : Type 0 where
  pub win0 : c'.win0 ≡ c.win0
  pub win1 : c'.win1 ≡ c.win1
  pub num_fb : c'.num_fb ≡ c.num_fb
  pub num_hwc : c'.num_hwc ≡ c.num_hwc
  pub virt : c'.virt ≡ c.virt
  pub skip_initialized : c'.skip_initialized ≡ c.skip_initialized

-- Window `k` has layer `i`, and all else is as it was.
pub record Takes (k i : ℕ) (c c' : HwcContext) : Type 0 where
  pub reserved : (win_at k c').reserved ≡ true
  pub layer_index : (win_at k c').layer_index ≡ i
  pub other : other_win k c' ≡ other_win k c
  pub num_fb : c'.num_fb ≡ c.num_fb
  pub num_hwc : c'.num_hwc ≡ c.num_hwc
  pub virt : c'.virt ≡ c.virt
  pub skip_initialized : c'.skip_initialized ≡ c.skip_initialized

abbrev pub Outcome : ℕ → ℕ → HwcContext → Assigned → Type 0
Outcome k i c (true, c') = Takes k i c c'
Outcome k i c (false, c') = Same c c'

pub record Assigns (k i : ℕ) (c : HwcContext) (a : Assigned) : Type 0 where
  pub outcome : Outcome k i c a

set_prev-Same : (k p : ℕ) (c c' : HwcContext) → Same c c' → Same c (set_prev k p c')
set_prev-Same zero p c c' h = record {
  win0 = h.win0;
  win1 = h.win1;
  num_fb = h.num_fb;
  num_hwc = h.num_hwc;
  virt = h.virt;
  skip_initialized = h.skip_initialized;
}
set_prev-Same (suc k) p c c' h = record {
  win0 = h.win0;
  win1 = h.win1;
  num_fb = h.num_fb;
  num_hwc = h.num_hwc;
  virt = h.virt;
  skip_initialized = h.skip_initialized;
}

reserve-Assigns :
    (k i : ℕ) (c : HwcContext) (w : Window) (c' : HwcContext)
    → Same c c'
    → Assigns k i c (reserve k i w c')
unfolding reserve
reserve-Assigns zero i c w c' h = record {
  outcome = record {
    reserved = refl;
    layer_index = refl;
    other = h.win1;
    num_fb = h.num_fb;
    num_hwc = h.num_hwc;
    virt = h.virt;
    skip_initialized = h.skip_initialized;
  };
}
reserve-Assigns (suc k) i c w c' h = record {
  outcome = record {
    reserved = refl;
    layer_index = refl;
    other = h.win0;
    num_fb = h.num_fb;
    num_hwc = h.num_hwc;
    virt = h.virt;
    skip_initialized = h.skip_initialized;
  };
}

module _ (k i : ℕ) (c : HwcContext) where
  Assigns-if :
      (test : Bool) (first other : Assigned)
      → Assigns k i c first
      → Assigns k i c other
      → Assigns k i c (if test then first else other)
  Assigns-if true first other h g = h
  Assigns-if false first other h g = g

  pub Same-refl : Same c c
  Same-refl = record {
    win0 = refl;
    win1 = refl;
    num_fb = refl;
    num_hwc = refl;
    virt = refl;
    skip_initialized = refl;
  }

  refuses : (c' : HwcContext) → Same c c' → Assigns k i c (refuse c')
  refuses c' h = record { outcome = h }

  Same-retry : (b : Bool) → Same c (record c { try_overlay = b })
  Same-retry b = record {
    win0 = refl;
    win1 = refl;
    num_fb = refl;
    num_hwc = refl;
    virt = refl;
    skip_initialized = refl;
  }

  Same-if :
      (test : Bool) (c' c'' : HwcContext)
      → Same c c'
      → Same c c''
      → Same c (if test then c' else c'')
  Same-if true c' c'' h g = h
  Same-if false c' c'' h g = g

  move_window-Assigns :
      (cur : Layer) (h : PrivateHandle) (rect : Area) → Assigns k i c (move_window k i cur h rect c)
  unfolding move_window
  move_window-Assigns cur h rect = Assigns-if _ _ _ (refuses _ (Same-retry true)) (
      Assigns-if _ _ _ (refuses _ (Same-retry true)) (
        reserve-Assigns k i c _ _
          (Same-if h.camera _ _ (Same-retry false) (set_prev-Same k 0 c _ (Same-retry false)))))

  new_place-Assigns :
      (env : Env) (cur : Layer) (h : PrivateHandle) (rect : Area)
      → Assigns k i c (new_place env k i cur h rect c)
  unfolding new_place
  new_place-Assigns env cur h rect =
      let moves = move_window-Assigns cur h in
      Assigns-if h.camera _ _ (Assigns-if _ _ _ (refuses c Same-refl) (moves rect)) (
        Assigns-if _ _ _ (Assigns-if _ _ _ (reserve-Assigns k i c _ c Same-refl) (moves _))
          (moves rect))

  same_place_again-Assigns : (cur : Layer) → Assigns k i c (same_place_again k i cur c)
  unfolding same_place_again
  same_place_again-Assigns cur = Assigns-if _ _ _ (reserve-Assigns k i c _ c Same-refl) (
      Assigns-if _ _ _ (refuses _ (Same-retry true)) (reserve-Assigns k i c _ _ (Same-retry false)))

  -- Assigning a window either takes it for the layer, or leaves the windows alone.
  pub assign-Assigns :
      (env : Env) (cur : Layer) (h : PrivateHandle)
      → Assigns k i c (assign_overlay_window env cur h k i c)
  unfolding assign_overlay_window
  assign-Assigns env cur h =
      let rect = calculate_rect (win_at k c) cur in
      Assigns-if (leb num_of_win k) _ _ (refuses c Same-refl) (
        Assigns-if (c.try_overlay && is_busy c (win_at k c)) _ _ (refuses c Same-refl) (
          Assigns-if (same_place rect (win_at k c).rect && same_size rect (win_at k c).rect) _ _
            (same_place_again-Assigns cur) (new_place-Assigns env cur h rect)))
