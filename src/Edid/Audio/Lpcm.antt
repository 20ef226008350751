-- ===== src/Edid/Audio/Lpcm.antt =====
-- The word length in EDIDAudioModeSupport.
use exynos.Common.{
  ℕ, zero, suc, ◌+◌, ◌≡◌, refl, ap, bit_and, false, Run, done, Option, none, some, ◌==◌, ltb, arith,
  bit_and-even, >>=-congr, elim-congr,
}
use exynos.Common.Outcome.{◌>>=◌}
use exynos.Ddc.{Host}
use exynos.Edid.Params.{AudioParameter, WordLen}
use exynos.Edid.State.{State, byte, reading, edid_read}
use exynos.Edid.Blocks.{Step, next, ret, scan_extension, audio_tag}
use exynos.Edid.Query.{unless_false, find_extension, timing_body}
use exynos.Edid.Audio.{
  sad_result, sad_matches, sad_loop, audio_body, read_audio, edid_audio_mode_support, lpcm_format,
}

-- The same request for another word length.
abbrev pub with_word_length : WordLen → AudioParameter → AudioParameter
with_word_length w a = record a { word_length = w }

never_lpcm : (b : ℕ) → (bit_and b 0x78 == lpcm_format) ≡ false
never_lpcm b = ground (arith, bit_and-even b)

sad_result-word_length :
    (w : WordLen) (a : AudioParameter) (b len : ℕ)
    → sad_result (with_word_length w a) (bit_and b 0x78) len ≡ sad_result a (bit_and b 0x78) len
unfolding sad_result
sad_result-word_length w a b len = rw (never_lpcm b, sad_result) refl

sad_loop-word_length :
    (w : WordLen) (a : AudioParameter) (s : State) (addr fuel j len : ℕ)
    → sad_loop s (with_word_length w a) addr fuel j len ≡ sad_loop s a addr fuel j len
unfolding sad_loop sad_matches
sad_loop-word_length w a s addr zero j len = refl
sad_loop-word_length w a s addr (suc fuel) j len = elim-congr (ltb j len) refl (
    >>=-congr (byte s (addr + j)) (λ b. >>=-congr (byte s (addr + j + 1)) (λ freq.
      >>=-congr (byte s (addr + j + 2)) (λ word_len.
        elim-congr (sad_matches a (bit_and b 0x78) (bit_and b 0x07) freq)
          (sad_loop-word_length w a s addr fuel (j + 3) len)
          (ap (λ r. done (some r)) (sad_result-word_length w a b word_len))))))

audio_body-word_length :
    (w : WordLen) (a : AudioParameter) (s : State) (offset tag len : ℕ) (u : Unit {0})
    → audio_body (with_word_length w a) s offset tag len u ≡ audio_body a s offset tag len u
unfolding audio_body
audio_body-word_length w a s offset tag len u =
    elim-congr (tag == audio_tag) {x = done (next tt)} refl (
      ap
        (λ (l : Run (Option ℕ)). l >>= λ r. elim r as (λ _. Run (Step (Unit {0}) ℕ)) [
          | none ↦ done (next tt)
          | some v ↦ done (ret v)
        ])
        (sad_loop-word_length w a s offset (suc len) 1 len))

-- EDIDAudioModeSupport gives the same answer whatever word length is asked for, for linear PCM too: the masked format
-- code of a descriptor, an even number, is compared with 1.
pub edid_audio_mode_support-word_length :
    (host : Host) (w : WordLen) (a : AudioParameter) (s : State)
    → edid_audio_mode_support host (with_word_length w a) s ≡ edid_audio_mode_support host a s
unfolding edid_audio_mode_support read_audio
edid_audio_mode_support-word_length host w a s =
    ap
      (λ (body : State → ℕ → ℕ → ℕ → Unit {0} → Run (Step (Unit {0}) ℕ)).
        unless_false (edid_read host) 0
          (find_extension (timing_body host (λ i. reading (read_with body i))) 0) s)
      (λ k s offset tag len u. audio_body-word_length w a s offset tag len u k)
  where
    read_with :
        (State → ℕ → ℕ → ℕ → Unit {0} → Run (Step (Unit {0}) ℕ)) → ℕ → State → Run (Option ℕ)
    read_with body i s = scan_extension s i (body s) tt >>= λ r. elim r [
      | ret v ↦ done (some v)
      | next _ ↦ done none
    ]
