-- ===== src/Hwc/Screen.antt =====
-- Calls of hwc_prepare of libhwc/ExynosHWC.cpp, one after the other.
use exynos.Common.{ℕ, ◌≡◌, false, List, [], ◌∷◌, length}
use exynos.Hwc.Types.{HwcContext}
use exynos.Hwc.Client.{Event, frame, turn_off}

-- The notes on layers are left alone.
record KeepsNotes (c c' : HwcContext) : Type 0 where
  virt : c'.virt ≡ c.virt
  skip_initialized : c'.skip_initialized ≡ c.skip_initialized

-- A list that is not marked as changed has as many layers as the one before, which had `n`.
abbrev pub Steady : ℕ → List Event → Type 0
Steady n [] = Unit
Steady n (frame changed list ∷ events) =
    (changed ≡ false → length list ≡ n) × Steady (length list) events
Steady n (turn_off done0 done1 ∷ events) = Steady n events
