-- ===== src/Hwc/Uses.antt =====
-- The windows that show the layers which hwc_prepare of libhwc/ExynosHWC.cpp has handled.
use exynos.Common.{
  ℕ, zero, suc, ◌+◌, ◌<◌, ◌≡◌, refl, true, false, some, List, [], ◌∷◌, ◌++◌, length, get_elem?,
  arith,
}
use exynos.Hwc.Types.{Composition, framebuffer, overlay, Layer, Window, HwcContext}

-- The window has an overlay among the layers that are done.
pub record Holds (done : List Layer) (w : Window) : Type 0 where
  pub reserved : w.reserved ≡ true
  pub shown : (c : Layer) × (get_elem? done w.layer_index ≡ some c) × (c.composition ≡ overlay)

abbrev pub Uses : List Layer → ℕ → Window → Window → Type 0
Uses done zero w v = (w.reserved ≡ false) × (v.reserved ≡ false)
Uses done (suc zero) w v = Holds done w × (v.reserved ≡ false)
Uses done (suc (suc zero)) w v = Holds done w × Holds done v × (w.layer_index < v.layer_index)
Uses done (suc (suc (suc k))) w v = ⊥

abbrev pub weight : Composition → ℕ
weight framebuffer = 0
weight overlay = 1

unfoldable pub overlays : List Layer → ℕ
overlays [] = 0
overlays (cur ∷ list) = weight cur.composition + overlays list

-- When the layers `done` have been handled and `k` windows are used.
pub record Handled (done : List Layer) (k : ℕ) (c : HwcContext) : Type 0 where
  pub windows : Uses done k c.win0 c.win1
  pub num_hwc : c.num_hwc ≡ k
  pub overlays_used : overlays done ≡ k
  pub num_fb : c.num_fb + k ≡ length done

pub overlays-append : (xs ys : List Layer) → overlays (xs ++ ys) ≡ overlays xs + overlays ys
unfolding overlays
overlays-append [] ys = omega arith
overlays-append (x ∷ xs) ys = omega (arith, overlays-append xs ys)

pub get_elem?-append :
    (xs ys : List Layer) (i : ℕ) (c : Layer)
    → get_elem? xs i ≡ some c
    → get_elem? (xs ++ ys) i ≡ some c
get_elem?-append [] ys i c h = absurd (cc h)
get_elem?-append (x ∷ xs) ys zero c h = h
get_elem?-append (x ∷ xs) ys (suc i) c h = get_elem?-append xs ys i c h

pub get_elem?-end : (xs : List Layer) (c : Layer) → get_elem? (xs ++ c ∷ []) (length xs) ≡ some c
get_elem?-end [] c = refl
get_elem?-end (x ∷ xs) c = get_elem?-end xs c

pub get_elem?-lt : (xs : List Layer) (i : ℕ) (c : Layer) → get_elem? xs i ≡ some c → i < length xs
get_elem?-lt [] i c h = absurd (cc h)
get_elem?-lt (x ∷ xs) zero c h = omega arith
get_elem?-lt (x ∷ xs) (suc i) c h = omega (arith, get_elem?-lt xs i c h)

pub Holds-append : (done ys : List Layer) (w : Window) → Holds done w → Holds (done ++ ys) w
Holds-append done ys w h = record {
  reserved = h.reserved;
  shown = (h.shown.0, get_elem?-append done ys w.layer_index h.shown.0 h.shown.1, h.shown.2);
}

pub Uses-append :
    (done ys : List Layer) (k : ℕ) (w v : Window) → Uses done k w v → Uses (done ++ ys) k w v
Uses-append done ys zero w v h = h
Uses-append done ys (suc zero) w v h = (Holds-append done ys w h.0, h.1)
Uses-append done ys (suc (suc zero)) w v h =
    (Holds-append done ys w h.0, Holds-append done ys v h.1, h.2)
Uses-append done ys (suc (suc (suc k))) w v h = h
