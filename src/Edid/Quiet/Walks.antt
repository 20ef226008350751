-- ===== src/Edid/Quiet/Walks.antt =====
-- The searches in one block of the EDID stop.
use exynos.Common.{
  ℕ, zero, suc, ◌+◌, ◌*◌, ◌≤◌, ◌<◌, Bool, true, false, not, ◌||◌, ◌&&◌, Run, done, none, some, Ends,
  Ends-bind, ltb, ◌==◌, bit_and, arith, Bool-cases, inl, inr, ltb→lt,
}
use exynos.Edid.Params.{VideoFormat, AudioParameter, Colorimetry, format_index}
use exynos.Edid.State.{State, block_size, byte, edid_valid}
use exynos.Edid.Loaded.{IsValid}
use exynos.Edid.Blocks.{
  next, ret, scan_extension, is_hdmi_vsdb, vsdb_body, get_vsdb_offset, svd_loop, vic_body,
  is_contain_vic, ◌&&then◌, video_tag, extended_tag, audio_tag,
}
use exynos.Edid.Timings.{
  dtd_loop, dtd_length, dtd_start, dtd_fuel, read_clock, read_timing, same_timing,
  is_contain_video_dtd,
}
use exynos.Edid.Tables.{params_of, a_video_params}
use exynos.Edid.Color.{colorimetry_body}
use exynos.Edid.Audio.{sad_loop, audio_body, sad_matches}
use exynos.Edid.Quiet.{byte-Ends, read_at-Ends, scan_extension-Ends}

-- A test that lets the code go on or not.
&&then-Ends : (b : Bool) (k : Run Bool) → Ends k → Ends (b &&then k)
&&then-Ends true k h = h
&&then-Ends false k h = tt

is_hdmi_vsdb-Ends : (s : State) (o t l : ℕ) → Ends (is_hdmi_vsdb s o t l)
is_hdmi_vsdb-Ends s o t l = &&then-Ends _ _ (
    Ends-bind (byte s (o + 1)) _ (byte-Ends s (o + 1)) (λ a. &&then-Ends _ _ (
      Ends-bind (byte s (o + 2)) _ (byte-Ends s (o + 2)) (λ b. &&then-Ends _ _ (
        Ends-bind (byte s (o + 3)) _ (byte-Ends s (o + 3))
          (λ c. &&then-Ends (c == 0x00) (done (ltb 5 l)) tt))))))

vsdb_body-Ends : (s : State) (o t l : ℕ) (x : Unit {0}) → Ends (vsdb_body s o t l x)
unfolding vsdb_body
vsdb_body-Ends s o t l x = Ends-bind (is_hdmi_vsdb s o t l) _ (is_hdmi_vsdb-Ends s o t l) (λ b. tt)

pub get_vsdb_offset-Ends : (s : State) (i : ℕ) → IsValid s → Ends (get_vsdb_offset s i)
unfolding get_vsdb_offset
get_vsdb_offset-Ends s i v = elim (Bool-cases (not (edid_valid s) || ltb s.extensions i)) [
  | inl e ↦ rw (e, get_vsdb_offset) tt
  | inr e ↦
      rw (e, get_vsdb_offset)
        (Ends-bind (scan_extension s i (vsdb_body s) tt) _
          (scan_extension-Ends s i (vsdb_body s) tt v (vsdb_body-Ends s))
          (elim [ ret a ↦ tt | next y ↦ tt ]))
]

svd_loop-Ends : (s : State) (vic addr n i : ℕ) → Ends (svd_loop s vic addr n i)
unfolding svd_loop
svd_loop-Ends s vic addr zero i = tt
svd_loop-Ends s vic addr (suc n) i =
    Ends-bind (byte s (addr + i)) _ (byte-Ends s (addr + i))
      (λ b. ground (arith, svd_loop-Ends s vic addr n (i + 1)))

vic_body-Ends : (s : State) (vic o t l : ℕ) (x : Unit {0}) → Ends (vic_body s vic o t l x)
unfolding vic_body
vic_body-Ends s vic o t zero x = tt
vic_body-Ends s vic o t (suc n) x = elim (Bool-cases (t == video_tag)) [
  | inr e ↦ rw (e, vic_body) tt
  | inl e ↦
      rw (e, vic_body) (Ends-bind (svd_loop s vic o n 1) _ (svd_loop-Ends s vic o n 1) (λ b. tt))
]

pub is_contain_vic-Ends : (s : State) (i vic : ℕ) → IsValid s → Ends (is_contain_vic s i vic)
unfolding is_contain_vic
is_contain_vic-Ends s i vic v =
    Ends-bind (byte s (i * block_size + 2)) _ (byte-Ends s (i * block_size + 2)) (λ _.
      elim (Bool-cases (not (edid_valid s) || ltb s.extensions i)) [
        | inl e ↦ rw e tt
        | inr e ↦ rw e (
            Ends-bind (scan_extension s i (vic_body s vic) tt) _
              (scan_extension-Ends s i (vic_body s vic) tt v (vic_body-Ends s vic))
              (elim [ ret a ↦ tt | next y ↦ tt ]))
      ])

read_clock-Ends : (s : State) (i : ℕ) → Ends (read_clock s i)
unfolding read_clock
read_clock-Ends s i =
    Ends-bind (byte s (i + 1)) _ (byte-Ends s (i + 1))
      (λ _. Ends-bind (byte s i) _ (byte-Ends s i) (λ _. tt))

read_timing-Ends : (s : State) (i c : ℕ) → Ends (read_timing s i c)
unfolding read_timing
read_timing-Ends s i c = Ends-bind (byte s (i + 4)) _ (byte-Ends s _) (λ _.
    Ends-bind (byte s (i + 3)) _ (byte-Ends s _) (λ _.
      Ends-bind (byte s (i + 2)) _ (byte-Ends s _) (λ _.
        Ends-bind (byte s (i + 7)) _ (byte-Ends s _) (λ _.
          Ends-bind (byte s (i + 6)) _ (byte-Ends s _) (λ _.
            Ends-bind (byte s (i + 5)) _ (byte-Ends s _)
              (λ _. Ends-bind (byte s (i + 17)) _ (byte-Ends s _) (λ _. tt)))))))

pub params_of-Ends : (f : VideoFormat) → Ends (params_of f)
unfolding params_of
params_of-Ends f = read_at-Ends a_video_params (format_index f)

dtd_loop-Ends :
    (s : State) (f : VideoFormat) (fuel i end : ℕ)
    → end + 18 ≤ i + 18 * fuel
    → 0 < fuel
    → Ends (dtd_loop s f fuel i end)
unfolding dtd_loop
dtd_loop-Ends s f zero i end h p = absurd (omega arith)
dtd_loop-Ends s f (suc fuel) i end h p = elim (Bool-cases (ltb i end)) [
  | inr e ↦ rw (e, dtd_loop) tt
  | inl e ↦
      let rest =
        dtd_loop-Ends s f fuel (i + dtd_length) end (omega (arith, ltb→lt i end e))
          (omega (arith, ltb→lt i end e)) in
      rw (e, dtd_loop)
        (Ends-bind (read_clock s i) _ (read_clock-Ends s i) (λ clock.
          elim (Bool-cases (clock == 0)) [
            | inl z ↦ rw z rest
            | inr z ↦ rw z (
                Ends-bind (read_timing s i clock) _ (read_timing-Ends s i clock) (λ t.
                  Ends-bind (params_of f) _ (params_of-Ends f) (λ p'.
                    elim (Bool-cases (same_timing p' t)) [ inl y ↦ rw y tt | inr n ↦ rw n rest ])))
          ]))
]

-- IsContainVideoDTD stops for every state, extension and format.
pub is_contain_video_dtd-Ends :
    (s : State) (i : ℕ) (f : VideoFormat) → Ends (is_contain_video_dtd s i f)
unfolding is_contain_video_dtd
is_contain_video_dtd-Ends s zero f = elim (Bool-cases (not (edid_valid s) || ltb s.extensions 0)) [
  | inl e ↦ rw (e, is_contain_video_dtd) tt
  | inr e ↦
      rw (e, is_contain_video_dtd)
        (dtd_loop-Ends s f dtd_fuel dtd_start (dtd_start + dtd_length * 4) (omega arith)
          (omega arith))
]
is_contain_video_dtd-Ends s (suc i) f =
    elim (Bool-cases (not (edid_valid s) || ltb s.extensions (suc i))) [
      | inl e ↦ rw (e, is_contain_video_dtd) tt
      | inr e ↦
          rw (e, is_contain_video_dtd)
            (Ends-bind (byte s (suc i * block_size + 2)) _ (byte-Ends s _)
              (λ off. dtd_loop-Ends s f dtd_fuel _ _ (omega arith) (omega arith)))
    ]

pub colorimetry_body-Ends :
    (color : Colorimetry) (s : State) (o t l : ℕ) (x : Unit {0})
    → Ends (colorimetry_body color s o t l x)
unfolding colorimetry_body
colorimetry_body-Ends color s o t l x = elim (Bool-cases (t == extended_tag)) [
  | inr e ↦ rw (e, colorimetry_body) tt
  | inl e ↦
      rw (e, colorimetry_body)
        (Ends-bind (byte s (o + 1)) _ (byte-Ends s _) (λ code.
          elim (Bool-cases (code == 5 && l == 4)) [
            | inr n ↦ rw n tt
            | inl y ↦ rw y (
                Ends-bind (byte s (o + 2)) _ (byte-Ends s _)
                  (λ _. Ends-bind (byte s (o + 3)) _ (byte-Ends s _) (λ _. tt)))
          ]))
]

sad_loop-Ends :
    (s : State) (a : AudioParameter) (o fuel j l : ℕ)
    → l < j + fuel
    → 0 < fuel
    → Ends (sad_loop s a o fuel j l)
unfolding sad_loop
sad_loop-Ends s a o zero j l h p = absurd (omega arith)
sad_loop-Ends s a o (suc fuel) j l h p = elim (Bool-cases (ltb j l)) [
  | inr e ↦ rw (e, sad_loop) tt
  | inl e ↦
      rw (e, sad_loop)
        (Ends-bind (byte s (o + j)) _ (byte-Ends s _) (λ b0.
          Ends-bind (byte s (o + j + 1)) _ (byte-Ends s _) (λ freq.
            Ends-bind (byte s (o + j + 2)) _ (byte-Ends s _) (λ w.
              elim (Bool-cases (sad_matches a (bit_and b0 0x78) (bit_and b0 0x07) freq)) [
                | inl y ↦ rw y tt
                | inr n ↦
                    rw n (
                      sad_loop-Ends s a o fuel (j + 3) l (omega arith)
                        (omega (arith, ltb→lt j l e)))
              ]))))
]

pub audio_body-Ends :
    (a : AudioParameter) (s : State) (o t l : ℕ) (x : Unit {0}) → Ends (audio_body a s o t l x)
unfolding audio_body
audio_body-Ends a s o t l x = elim (Bool-cases (t == audio_tag)) [
  | inr e ↦ rw (e, audio_body) tt
  | inl e ↦
      rw (e, audio_body)
        (Ends-bind (sad_loop s a o (suc l) 1 l) _
          (sad_loop-Ends s a o (suc l) 1 l (omega arith) (omega arith))
          (elim [ none ↦ tt | some v ↦ tt ]))
]
