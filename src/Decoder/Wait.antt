-- ===== src/Decoder/Wait.antt =====
-- MFC_Decoder_Wait_Inbuf of ExynosVideoDecoder.c, and the same loop in MFC_Encoder_Wait_Inbuf: the device is
-- polled until it answers.
use exynos.Common.{ℕ, zero, suc, ◌+◌, ◌<◌, ◌≡◌, Bool, true, false, arith, refl, sym, ap, ◌∙◌}
use exynos.Common.Outcome.{Run, done, hang}

-- What a poll tells: the event that is waited for, another event, a failure, or that the time is over.
pub data Polled : Type 0 where
  ready other_event failed timed_out : Polled

-- The result that the answer of the device stands for.
abbrev pub verdict : Polled → Run Bool → Run Bool
verdict ready later = done true
verdict other_event later = done false
verdict failed later = done false
verdict timed_out later = later

-- `true` is VIDEO_ERROR_NONE and `false` VIDEO_ERROR_POLL; `hang` is a loop that goes on. `poll` is given the number of
-- the round.
unfoldable pub wait_from : (ℕ → Polled) → ℕ → ℕ → Run Bool
wait_from poll zero i = hang
wait_from poll (suc fuel) i = let later = wait_from poll fuel (i + 1) in verdict (poll i) later

unfoldable pub wait_buffer : (ℕ → Polled) → ℕ → Run Bool
wait_buffer poll fuel = wait_from poll fuel 0

-- If the device answers in the end, a wait with fuel for the polls up to then returns the first answer.
pub wait_from-first :
    (poll : ℕ → Polled) (n i : ℕ)
    → ((j : ℕ) → j < n → poll (i + j) ≡ timed_out)
    → wait_from poll (suc n) i ≡ verdict (poll (i + n)) hang
unfolding wait_from
wait_from-first poll zero i h = rw (plus_zero i) refl
  where
    plus_zero : (i : ℕ) → i + 0 ≡ i
    plus_zero i = omega arith
wait_from-first poll (suc n) i h =
    let idle : poll i ≡ timed_out = ap poll (plus_zero i) ∙ h 0 (omega arith) in
    rw (idle, sym (later i n))
      (wait_from-first poll n (i + 1) (λ j lt. ap poll (later i j) ∙ h (suc j) (omega (arith, lt))))
  where
    plus_zero : (i : ℕ) → i ≡ i + 0
    plus_zero i = omega arith

    later : (i j : ℕ) → i + 1 + j ≡ i + suc j
    later i j = omega arith
