-- ===== src/Hwc/Scaling.antt =====
-- When libhwc/ExynosHWC.cpp changes the mode of the scaler.
use exynos.Common.{
  ℕ, suc, ◌≡◌, refl, Bool, true, false, not, ◌&&◌, ◌||◌, Option, none, some, List, [], ◌∷◌, ltb,
  ◌==◌, if◌then◌else◌, arith, Bool-cases, inl, inr, ltb→le,
}
use exynos.Hwc.Types.{GscMode, m2m, Env, HwcContext, Layer}
use exynos.Hwc.Mode.{
  is_yuv, get_hwc_num_of_yuv_layers, mode_loop, shrinks_beyond, down_scale_ratio, same_mode,
  change_mode, gsc_mode_change_check,
}

unfoldable pub first_yuv : List Layer → Option Layer
first_yuv [] = none
first_yuv (cur ∷ list) = let rest = first_yuv list in if is_yuv cur then some cur else rest

-- The mode that one layer asks for.
unfoldable pub wanted_mode : Env → HwcContext → Layer → GscMode
wanted_mode env ctx cur =
    if cur.transform.rot_90 || shrinks_beyond (down_scale_ratio ctx.max_down_ratio) cur
    then m2m
    else env.default_mode

abbrev wanted : Env → HwcContext → Option Layer → GscMode × ℕ
wanted env ctx none = (env.default_mode, 0)
wanted env ctx (some cur) = (wanted_mode env ctx cur, 1)

mode_loop-none :
    (env : Env) (ctx : HwcContext) (list : List Layer) (n : ℕ)
    → get_hwc_num_of_yuv_layers list ≡ 0
    → mode_loop env ctx list n ≡ (env.default_mode, n)
unfolding mode_loop get_hwc_num_of_yuv_layers
mode_loop-none env ctx [] n h = refl
mode_loop-none env ctx (cur ∷ list) n h = elim (Bool-cases (is_yuv cur)) [
  | inl yes_yuv ↦ absurd (cc (rw yes_yuv at h))
  | inr not_yuv ↦ rw not_yuv (mode_loop-none env ctx list n (rw not_yuv at h))
]

first_choice :
    (turned shrunk : Bool) (default : GscMode) (num more : ℕ) (rest : GscMode × ℕ)
    → num ≡ suc more
    → (more ≡ 0 → rest ≡ (default, 1))
    → (if turned
        then (m2m, 1)
        else if shrunk
        then (m2m, 1)
        else if ltb 1 num
        then (default, 1)
        else rest)
      ≡ ((if turned || shrunk then m2m else default), 1)
first_choice true shrunk default num more rest e h = refl
first_choice false true default num more rest e h = refl
first_choice false false default num more rest e h = elim (Bool-cases (ltb 1 num)) [
  | inl several ↦ rw several refl
  | inr one ↦ rw one (h (omega (arith, ltb→le 1 num one, e)))
]

mode_loop-first :
    (env : Env) (ctx : HwcContext) (list : List Layer)
    → ctx.num_yuv ≡ get_hwc_num_of_yuv_layers list
    → mode_loop env ctx list 0 ≡ wanted env ctx (first_yuv list)
unfolding mode_loop get_hwc_num_of_yuv_layers first_yuv wanted_mode
mode_loop-first env ctx [] h = refl
mode_loop-first env ctx (cur ∷ list) h = elim (Bool-cases (is_yuv cur)) [
  | inl yes_yuv ↦
      let counted : ctx.num_yuv ≡ suc (get_hwc_num_of_yuv_layers list) = rw yes_yuv at h in
      rw yes_yuv (
        first_choice cur.transform.rot_90 (shrinks_beyond (down_scale_ratio ctx.max_down_ratio) cur)
          env.default_mode ctx.num_yuv (get_hwc_num_of_yuv_layers list) _ counted
          (mode_loop-none env ctx list 1))
  | inr not_yuv ↦ rw not_yuv (mode_loop-first env ctx list (rw not_yuv at h))
]

-- What the mode check should do: the first YUV layer decides.
abbrev pub mode_for : Env → HwcContext → Option Layer → HwcContext
mode_for env ctx none = ctx
mode_for env ctx (some cur) =
    let mode = wanted_mode env ctx cur in
    if same_mode ctx.mode mode then ctx else change_mode env mode ctx

-- With the number of YUV layers counted, as hwc_prepare does, the mode check looks at the first YUV layer alone, however
-- many there are: the scaler is changed if that layer asks for another mode, which is memory to memory where it is turned
-- by a quarter or shrinks by more than the ratio, and is left as it is if there is no YUV layer.
pub gsc_mode_change_check-first :
    (env : Env) (list : List Layer) (ctx : HwcContext)
    → ctx.num_yuv ≡ get_hwc_num_of_yuv_layers list
    → gsc_mode_change_check env list ctx ≡ mode_for env ctx (first_yuv list)
unfolding gsc_mode_change_check
gsc_mode_change_check-first env list ctx h =
    rw (mode_loop-first env ctx list h) (go (first_yuv list))
  where
    changed :
        (same : Bool) (mode : GscMode)
        → (if not same && true then change_mode env mode ctx else ctx)
          ≡ (if same then ctx else change_mode env mode ctx)
    changed true mode = refl
    changed false mode = refl

    unchanged :
        (same : Bool) (mode : GscMode)
        → (if not same && false then change_mode env mode ctx else ctx) ≡ ctx
    unchanged true mode = refl
    unchanged false mode = refl

    go :
        (o : Option Layer)
        → (if not (same_mode ctx.mode (wanted env ctx o).0) && not ((wanted env ctx o).1 == 0)
            then change_mode env (wanted env ctx o).0 ctx
            else ctx)
          ≡ mode_for env ctx o
    go none = unchanged (same_mode ctx.mode env.default_mode) env.default_mode
    go (some cur) = changed (same_mode ctx.mode (wanted_mode env ctx cur)) (wanted_mode env ctx cur)
