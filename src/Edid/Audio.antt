-- ===== src/Edid/Audio.antt =====
-- EDIDAudioModeSupport of libedid.c.
pub mod Lpcm
use exynos.Common.{
  ℕ, zero, suc, ◌+◌, ◌-◌, bit_and, Bool, true, false, ◌&&◌, Run, done, hang, Option, none, some,
  ◌==◌, ltb, leb, ◌<<<◌,
}
use exynos.Common.Outcome.{◌>>=◌}
use exynos.Ddc.{Host}
use exynos.Edid.Params.{
  AudioParameter, audio_code, freq_index, WordLen, word16, word17, word18, word19, word20,
}
use exynos.Edid.State.{State, M, reading, byte, edid_read}
use exynos.Edid.Blocks.{Step, next, ret, scan_extension, audio_tag}
use exynos.Edid.Query.{any_bit, find_extension, unless_false, timing_body}

-- The value that the code compares a masked format code with, LPCM_FORMAT.
abbrev pub lpcm_format : ℕ
lpcm_format = 1

-- `switch (audio->wordLength)` on the third byte of a descriptor.
unfoldable pub word_length_bits : WordLen → ℕ → ℕ
word_length_bits word16 len = bit_and len 2
word_length_bits word17 len = bit_and len 2
word_length_bits word18 len = bit_and len 2
word_length_bits word19 len = bit_and len 2
word_length_bits word20 len = bit_and len 2
word_length_bits _ len = bit_and len 4

-- The three tests on a short audio descriptor.
unfoldable pub sad_matches : AudioParameter → ℕ → ℕ → ℕ → Bool
sad_matches a audio_format channels freq =
    any_bit audio_format (audio_code a.format_code <<< 3)
    && leb (a.channel_num - 1) channels
    && any_bit freq (1 <<< freq_index a.sample_freq)

-- What the function returns at a descriptor that matches.
unfoldable pub sad_result : AudioParameter → ℕ → ℕ → ℕ
unfolding word_length_bits
sad_result a audio_format word_len = elim (audio_format == lpcm_format) [
  | true ↦ word_length_bits a.word_length word_len
  | false ↦ 1
]

-- `for (j = 1; j < blockLen; j += 3)`: three bytes are read from each `j`.
unfoldable pub sad_loop : State → AudioParameter → ℕ → ℕ → ℕ → ℕ → Run (Option ℕ)
sad_loop s a addr zero j block_len = hang
sad_loop s a addr (suc fuel) j block_len = elim (ltb j block_len) [
  | false ↦ done none
  | true ↦ byte s (addr + j) >>= λ b0. byte s (addr + j + 1) >>= λ freq.
      byte s (addr + j + 2) >>= λ word_len.
      let audio_format = bit_and b0 0x78 in
      elim (sad_matches a audio_format (bit_and b0 0x07) freq) [
        | true ↦ done (some (sad_result a audio_format word_len))
        | false ↦ sad_loop s a addr fuel (j + 3) block_len
      ]
]

unfoldable pub audio_body : AudioParameter → State → ℕ → ℕ → ℕ → Unit {0} → Run (Step (Unit {0}) ℕ)
unfolding sad_loop
audio_body a s offset tag block_len _ = elim (tag == audio_tag) [
  | false ↦ done (next tt)
  | true ↦ sad_loop s a offset (suc block_len) 1 block_len >>= λ r. elim r [
    | none ↦ done (next tt)
    | some v ↦ done (ret v)
  ]
]

-- What the loop over the data blocks of extension `i` returns, if it returns.
unfoldable pub read_audio : AudioParameter → ℕ → State → Run (Option ℕ)
unfolding audio_body sad_matches sad_result
read_audio a i s = scan_extension s i (audio_body a s) tt >>= λ r. elim r [
  | ret v ↦ done (some v)
  | next _ ↦ done none
]

-- The value that EDIDAudioModeSupport returns.
unfoldable pub edid_audio_mode_support : Host → AudioParameter → M ℕ
edid_audio_mode_support host a =
    unless_false (edid_read host) 0
      (find_extension (timing_body host (λ i. reading (read_audio a i))) 0)
