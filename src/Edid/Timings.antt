-- ===== src/Edid/Timings.antt =====
-- IsContainVideoDTD of libedid.c: the detailed timing descriptors of a block.
pub mod Interlaced
use exynos.Common.{
  ℕ, zero, suc, ◌+◌, ◌-◌, ◌*◌, ◌/◌, bit_and, bit_or, Bool, true, false, not, ◌&&◌, ◌||◌, Run, done,
  hang, ◌==◌, ltb, if◌then◌else◌, ◌<<<◌,
}
use exynos.Common.Outcome.{◌>>=◌}
use exynos.Edid.Params.{VideoFormat, format_index, v1920x1080i_50hz_1250}
use exynos.Edid.State.{State, block_size, byte, edid_valid}
use exynos.Edid.Tables.{VideoParams, params_of}

abbrev pub dtd_start : ℕ
dtd_start = 0x36

abbrev pub dtd_length : ℕ
dtd_length = 18

-- The locals that the loop reads from a descriptor.
pub record Timing : Type 0 where
  pub pixelclock : ℕ
  pub hblank : ℕ
  pub hactive : ℕ
  pub vblank : ℕ
  pub vactive : ℕ

-- The high byte's part and the low byte of a field of a descriptor.
abbrev pub field : ℕ → ℕ → ℕ → ℕ → ℕ
field hi mask shift lo = bit_or (bit_and hi mask <<< shift) lo

unfoldable pub read_clock : State → ℕ → Run ℕ
read_clock s i = byte s (i + 1) >>= λ hi. byte s i >>= λ lo. done (bit_or (hi <<< 8) lo)

-- The fields of the descriptor at `i`, in the order in which they are read, and the byte with the
-- interlace bit, whose value the code does not use.
unfoldable pub read_timing : State → ℕ → ℕ → Run Timing
read_timing s i pixelclock = byte s (i + 4) >>= λ h4. byte s (i + 3) >>= λ h3.
    byte s (i + 2) >>= λ h2. byte s (i + 7) >>= λ v7. byte s (i + 6) >>= λ v6.
    byte s (i + 5) >>= λ v5. byte s (i + 17) >>= λ _. done (record {
      pixelclock = pixelclock;
      hblank = field h4 0x0f 8 h3;
      hactive = field h4 0xf0 4 h2;
      vblank = field v7 0x0f 8 v6;
      vactive = field v7 0xf0 4 v5;
    })

-- `vVActive`: the table's rows hold the totals of a frame. `-` is not truncated on them.
unfoldable pub lines_wanted : VideoParams → ℕ
lines_wanted p =
    if p.interlaced == 1
    then if p.vic == format_index v1920x1080i_50hz_1250
      then (p.v_total - p.v_blank * 2) / 2
      else (p.v_total - p.v_blank * 2 - 1) / 2
    else p.v_total - p.v_blank

-- The test at the end of the loop's body.
unfoldable pub same_timing : VideoParams → Timing → Bool
unfolding lines_wanted
same_timing p t =
    t.hblank == p.h_blank
    && t.vblank == p.v_blank
    && t.hactive == p.h_total - p.h_blank
    && t.vactive == lines_wanted p
    && t.pixelclock / 100 == p.pixel_clock / 100

-- `for (i = StartOffset; i < EndOffset; i += EDID_DTD_BYTE_LENGTH)`
unfoldable pub dtd_loop : State → VideoFormat → ℕ → ℕ → ℕ → Run Bool
dtd_loop s f zero i end = hang
dtd_loop s f (suc fuel) i end = elim (ltb i end) [
  | false ↦ done false
  | true ↦ read_clock s i >>= λ clock. elim (clock == 0) [
    | true ↦ dtd_loop s f fuel (i + dtd_length) end
    | false ↦ read_timing s i clock >>= λ t. params_of f >>= λ p. elim (same_timing p t) [
      | true ↦ done true
      | false ↦ dtd_loop s f fuel (i + dtd_length) end
    ]
  ]
]

-- A block has room for seven descriptors, and an eighth may begin in it.
abbrev pub dtd_fuel : ℕ
dtd_fuel = 9

unfoldable pub is_contain_video_dtd : State → ℕ → VideoFormat → Run Bool
unfolding edid_valid dtd_loop read_clock read_timing same_timing
is_contain_video_dtd s extension f = elim (not (edid_valid s) || ltb s.extensions extension) [
  | true ↦ done false
  | false ↦ elim extension [
    | zero ↦ dtd_loop s f dtd_fuel dtd_start (dtd_start + dtd_length * 4)
    | suc e ↦ byte s (suc e * block_size + 2) >>= λ off.
        dtd_loop s f dtd_fuel (suc e * block_size + off) ((suc e + 1) * block_size)
  ]
]
