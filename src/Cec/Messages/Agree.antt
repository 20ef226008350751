-- ===== src/Cec/Messages/Agree.antt =====
-- How the message checks of libcec.c agree with one another.
use exynos.Common.{ℕ, ◌≡◌, refl, ◌⊎◌, inl, inr, Bool, true, not, ◌==◌, arith}
use exynos.Cec.Messages.{cec_ignore_message, cec_check_message_size, cec_check_message_mode}

ignored_opcode : (op lsrc : ℕ) → cec_ignore_message op lsrc ≡ true → (op ≡ 0x42) ⊎ (op ≡ 0x41)
unfolding cec_ignore_message
ignored_opcode op lsrc h = ground arith

-- A message that CECIgnoreMessage drops is one that the mode check takes only when it is directed, and
-- that the size check takes only with three bytes.
pub cec_ignore_message-checks :
    (op lsrc size : ℕ) (broadcast : Bool)
    → cec_ignore_message op lsrc ≡ true
    → (cec_check_message_mode op broadcast ≡ not broadcast)
      × (cec_check_message_size op size ≡ (size == 3))
unfolding cec_check_message_mode cec_check_message_size
cec_ignore_message-checks op lsrc size broadcast h = elim (ignored_opcode op lsrc h) [
  | inl deck ↦ rw deck (refl, refl)
  | inr play ↦ rw play (refl, refl)
]
