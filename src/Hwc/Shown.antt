-- ===== src/Hwc/Shown.antt =====
-- Where the layers stand that get_hwc_compos_decision of libhwc/ExynosHWC.cpp accepts.
use exynos.Common.{
  ℕ, ◌≤◌, ◌<◌, ◌≡◌, refl, Bool, true, false, ◌&&◌, ◌||◌, Option, none, some, if◌then◌else◌, arith,
}
use exynos.Common.Int.{ℤ, pos, pos_part, neg_part, ◌≤ℤ◌, times}
use exynos.Hwc.Types.{
  PrivateHandle, Transform, Rect, Composition, framebuffer, overlay, Layer, Window, Env, HwcContext,
  win_at,
}
use exynos.Hwc.Decide.{
  width, height, calculate_rect, out_of_limits, scaler_busy, when_overlay, source_aligned,
  with_handle, get_hwc_compos_decision, overlay_format,
}

-- A value of type int.
abbrev pub IsInt : ℤ → Type 0
IsInt z = (pos_part z < 2147483648) × (neg_part z ≤ 2147483648)

-- In one direction, from the edge of the screen to its other edge.
pub record OnAxis (from to : ℤ) (res : ℕ) : Type 0 where
  pub begins : pos 0 ≤ℤ from
  pub ordered : from ≤ℤ to
  pub ends : to ≤ℤ pos res

or-false : (a b : Bool) → (a || b) ≡ false → (a ≡ false) × (b ≡ false)
or-false a b h = ground arith

pub record Fits (t : Transform) (crop frame : Rect) : Type 0 where
  pub source_w : pos 16 ≤ℤ width crop
  pub source_h : pos 8 ≤ℤ height crop
  pub target_w : pos 8 ≤ℤ width frame
  pub target_h : pos 8 ≤ℤ height frame
  pub upright :
      t.flip_h ≡ false
      → t.flip_v ≡ false
      → t.rot_90 ≡ false
      → (width frame ≤ℤ times 8 (width crop)) × (height frame ≤ℤ times 8 (height crop))
  pub turned :
      t.rot_90 ≡ true
      → (height frame ≤ℤ times 8 (width crop)) × (width frame ≤ℤ times 8 (height crop))

-- What an accepted layer has.
pub record Accepted (env : Env) (ctx : HwcContext) (cur : Layer) (k : ℕ) : Type 0 where
  pub handle : PrivateHandle
  pub has_handle : cur.handle ≡ some handle
  pub drawn : cur.skip ≡ false
  pub limits : out_of_limits cur (win_at k ctx) ≡ false
  pub format : overlay_format handle.format ≡ true
  pub aligned : source_aligned cur.transform cur.crop cur.frame ≡ true

and-true : (a b : Bool) → (a && b) ≡ true → (a ≡ true) × (b ≡ true)
and-true a b h = ground arith

when_overlay-true : (b : Bool) → when_overlay b ≡ overlay → b ≡ true
when_overlay-true true h = refl
when_overlay-true false h = absurd (cc h)

guarded :
    (b : Bool) (d : Composition)
    → (if b then framebuffer else d) ≡ overlay
    → (b ≡ false) × (d ≡ overlay)
guarded true d h = absurd (cc h)
guarded false d h = (refl, h)

pub decision-Accepted :
    (env : Env) (ctx : HwcContext) (cur : Layer) (k : ℕ)
    → get_hwc_compos_decision env ctx cur k ≡ overlay
    → Accepted env ctx cur k
unfolding get_hwc_compos_decision
decision-Accepted env ctx cur k h = go cur.handle refl h
  where
    go :
        (o : Option PrivateHandle)
        → cur.handle ≡ o
        → (elim o as (λ _. Composition) [
          | none ↦ framebuffer
          | some handle ↦ with_handle env ctx cur k handle
        ])
          ≡ overlay
        → Accepted env ctx cur k
    go none e h = absurd (cc h)
    go (some handle) e h =
        let (free, chosen) = guarded _ _ h in
        let (drawn, other) = or-false cur.skip _ free in
        let (idle, limits) = or-false (scaler_busy env ctx k) _ other in
        let (format, rest) =
          and-true (overlay_format handle.format) _ (when_overlay-true _ chosen) in
        let (usable, aligned) = and-true (handle.hwoverlay && cur.opaque) _ rest in
        record {
          handle = handle;
          has_handle = e;
          drawn = drawn;
          limits = limits;
          format = format;
          aligned = aligned;
        }

-- On the screen, and shown in the area that is the frame itself.
pub record InPlace (cur : Layer) (win : Window) : Type 0 where
  pub across : OnAxis cur.frame.left cur.frame.right win.xres
  pub down : OnAxis cur.frame.top cur.frame.bottom win.yres
  pub area :
      calculate_rect win cur
      ≡ record { x = cur.frame.left; y = cur.frame.top; w = width cur.frame; h = height cur.frame }
  pub fits : Fits cur.transform cur.crop cur.frame
