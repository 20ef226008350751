-- ===== src/Scaler/Limits.antt =====
-- What exynos_gsc_scale_ratio_check lets through.
use exynos.Common.{
  ℕ, ◌*◌, ◌≤◌, ◌<◌, ◌≡◌, refl, Bool, true, false, not, ◌&&◌, ◌||◌, ◌↔◌, ltb, if◌then◌else◌, u32,
  arith,
}
use exynos.Scaler.Handle.{Image, Handle}
use exynos.Scaler.Ratio.{exceeds, up_ok, down_ok, gsc_scale_ratio_check}

-- An image small enough that sixteen times its sides are 32-bit numbers.
abbrev pub IsSmall : Image → Type 0
IsSmall i = (i.w < 268435456) × (i.h < 268435456)

exceeds-8 : (a b : Image) → IsSmall a → exceeds 8 a b ≡ (ltb (a.w * 8) b.w || ltb (a.h * 8) b.h)
unfolding exceeds
exceeds-8 a b h =
    let w : u32 (a.w * 8) ≡ a.w * 8 = omega (arith, h.0) in
    let e : u32 (a.h * 8) ≡ a.h * 8 = omega (arith, h.1) in rw (w, e) refl

exceeds-16 : (a b : Image) → IsSmall a → exceeds 16 a b ≡ (ltb (a.w * 16) b.w || ltb (a.h * 16) b.h)
unfolding exceeds
exceeds-16 a b h =
    let w : u32 (a.w * 16) ≡ a.w * 16 = omega (arith, h.0) in
    let e : u32 (a.h * 16) ≡ a.h * 16 = omega (arith, h.1) in rw (w, e) refl

-- The limit is tested only when one side exceeds the other's; `la` and `lb` are the limits of the sides.
bounded :
    (a b c d la lb : ℕ)
    → a ≤ la
    → b ≤ lb
    → (if ltb a c || ltb b d then not (ltb la c || ltb lb d) else true) ≡ true
      ↔ ((c ≤ la) × (d ≤ lb))
bounded a b c d la lb ha hb = (λ e. (ground arith, ground arith), λ e. ground arith)

both : (a b : Bool) (P Q : Type 0) → (a ≡ true) ↔ P → (b ≡ true) ↔ Q → ((a && b) ≡ true) ↔ (P × Q)
both true b P Q p q = (λ e. (p.0 refl, q.0 e), λ h. q.1 h.1)
both false b P Q p q = (λ e. absurd (cc e), λ h. p.1 h.0)

-- In the memory-to-memory mode the test passes exactly when no side grows to more than eight times or shrinks
-- to less than a sixteenth. The sides are small enough for the products of the code not to wrap around.
pub gsc_scale_ratio_check-m2m :
    (h : Handle)
    → h.gsc_mode ≡ 0
    → IsSmall h.src_img
    → IsSmall h.dst_img
    → (gsc_scale_ratio_check h ≡ true) ↔ (
        ((h.dst_img.w ≤ h.src_img.w * 8) × (h.dst_img.h ≤ h.src_img.h * 8))
        × ((h.src_img.w ≤ h.dst_img.w * 16) × (h.src_img.h ≤ h.dst_img.h * 16)))
unfolding gsc_scale_ratio_check up_ok down_ok
gsc_scale_ratio_check-m2m h mode small_src small_dst =
    rw (mode, exceeds-8 h.src_img h.dst_img small_src, exceeds-16 h.dst_img h.src_img small_dst)
      (both _ _ _ _
        (bounded h.src_img.w h.src_img.h h.dst_img.w h.dst_img.h (h.src_img.w * 8) (h.src_img.h * 8)
          (omega arith) (omega arith))
        (bounded h.dst_img.w h.dst_img.h h.src_img.w h.src_img.h (h.dst_img.w * 16)
          (h.dst_img.h * 16) (omega arith) (omega arith)))
