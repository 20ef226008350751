-- ===== src/Edid/Quiet.antt =====
-- The loops of libedid.c stop on every EDID, whatever bytes the sink sent.
pub mod Walks
pub mod Checks
use exynos.Common.{
  ℕ, zero, suc, ◌+◌, ◌-◌, ◌*◌, ◌≤◌, ◌<◌, ◌≡◌, refl, Bool, true, false, not, ◌||◌, Run, done, fault,
  hang, List, Option, none, some, Meets, Ends, Meets-bind, Ends-bind, ltb, ◌==◌, bit_and, arith,
  Bool-cases, inl, inr, ltb→lt, ltb→le, Option-cases, read_at, read_at-of_lt, All-get_or, length,
  get_elem?-of_ge,
}
use native.Mathlib.Decide.{dec_lt}
use exynos.Common.Outcome.{◌>>=◌}
use exynos.Edid.Params.{VideoFormat, AudioParameter}
use exynos.Edid.State.{State, block_size, byte, edid_valid}
use exynos.Edid.Loaded.{IsValid, Loaded}
use exynos.Edid.Blocks.{
  Step, next, ret, tag_mask, size_mask, scan_blocks, scan_extension, scan_fuel, is_hdmi_vsdb,
  vsdb_body, get_vsdb_offset, svd_loop, vic_body, is_contain_vic, ◌&&then◌,
}
use exynos.Edid.Timings.{
  dtd_loop, dtd_length, dtd_fuel, read_clock, read_timing, same_timing, is_contain_video_dtd,
}
use exynos.Edid.Tables.{params_of}

pub read_at-Ends {ℓ} : {A : Type ℓ} (xs : List A) (i : ℕ) → Ends (read_at xs i)
read_at-Ends xs i = ground arith

pub byte-Ends : (s : State) (i : ℕ) → Ends (byte s i)
byte-Ends s i = elim (Option-cases s.bytes) [
  | inl e ↦ rw (e, byte) tt
  | inr (d, e) ↦ rw (e, byte) (read_at-Ends d i)
]

read_at-small : (n : ℕ) (d : List ℕ) (i : ℕ) → Loaded n d → Meets (λ b. b < 256) (read_at d i)
read_at-small n d i v = elim (dec_lt i (length d)) [
  | yes p ↦ rw (read_at-of_lt d i 0 p) (All-get_or (λ b. b < 256) d i 0 v.blocks.small p)
  | no p ↦ rw (get_elem?-of_ge d i (omega arith), read_at) tt
]

pub byte-small : (s : State) (i : ℕ) → IsValid s → Meets (λ b. b < 256) (byte s i)
byte-small s i v = elim (Option-cases s.bytes) [
  | inl e ↦ rw (e, byte) tt
  | inr (d, e) ↦ rw (e, byte) (read_at-small s.extensions d i (rw (e, IsValid) at v))
]

-- One round: what is left to show is that the loop goes on to an end.
round-Ends :
    {S A : Type 0} (r : Step S A) (rest : S → Run (Step S A))
    → ((y : S) → Ends (rest y))
    → Ends {A = Step S A} (elim r [ ret a ↦ done (ret a) | next y ↦ rest y ])
round-Ends (ret a) rest h = tt
round-Ends (next y) rest h = h y

-- A body that stops gives a loop that stops, if the fuel covers the distance.
scan_blocks-Ends :
    {S A : Type 0} (s : State) (body : ℕ → ℕ → ℕ → S → Run (Step S A))
    → ((o t l : ℕ) (x : S) → Ends (body o t l x))
    → (fuel offset end : ℕ) (x : S) → end - offset < fuel
    → Ends (scan_blocks s body fuel offset end x)
unfolding scan_blocks
scan_blocks-Ends s body h zero offset end x lt = absurd (omega arith)
scan_blocks-Ends s body h (suc fuel) offset end x lt = elim (Bool-cases (ltb offset end)) [
  | inr over ↦ rw (over, scan_blocks) tt
  | inl more ↦
      rw (more, scan_blocks)
        (Ends-bind (byte s offset) _ (byte-Ends s offset) (λ head.
          Ends-bind (body offset (bit_and head tag_mask) (bit_and head size_mask + 1) x) _
            (h offset (bit_and head tag_mask) (bit_and head size_mask + 1) x)
            (λ r. round-Ends r _ (λ y.
              scan_blocks-Ends s body h fuel (offset + (bit_and head size_mask + 1)) end y
                (omega (arith, ltb→lt offset end more))))))
]

-- The loop over an extension stops, if its body does.
pub scan_extension-Ends :
    {S A : Type 0} (s : State) (extension : ℕ) (body : ℕ → ℕ → ℕ → S → Run (Step S A)) (x : S)
    → IsValid s
    → ((o t l : ℕ) (y : S) → Ends (body o t l y))
    → Ends (scan_extension s extension body x)
unfolding scan_extension
scan_extension-Ends s extension body x v h =
    Meets-bind (λ b. b < 256) (λ _. Unit) (byte s (extension * block_size + 2)) _
      (byte-small s (extension * block_size + 2) v)
      (λ dtd lt. scan_blocks-Ends s body h scan_fuel _ _ x (omega arith))
