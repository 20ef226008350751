-- ===== src/Edid/Color.antt =====
-- The colour checks of libedid.c, and the clock limit of the sink.
use exynos.Common.{
  ℕ, ◌+◌, ◌*◌, bit_and, Bool, true, false, not, ◌&&◌, Run, done, Option, none, some, ◌==◌, leb,
  if◌then◌else◌,
}
use exynos.Common.Outcome.{◌>>=◌}
use exynos.Ddc.{Host}
use exynos.Edid.Params.{
  ColorSpace, rgb, ycbcr444, ycbcr422, ColorDepth, cd36, cd30, cd24, Colorimetry, no_data, itu601,
  itu709, extended_xvycc601, extended_xvycc709,
}
use exynos.Edid.State.{State, M, pure, reading, block_size, byte, edid_read}
use exynos.Edid.Blocks.{Step, next, ret, scan_extension, extended_tag, size_mask}
use exynos.Edid.Query.{any_bit, find_extension, unless_false, timing_body, vsdb_extension}

-- The switch of CheckColorDepth on the bits of the VSDB.
unfoldable pub deep_color_bits : ColorDepth → ℕ → ℕ
deep_color_bits cd36 bits = bit_and bits 0x20
deep_color_bits cd30 bits = bit_and bits 0x10
deep_color_bits cd24 bits = 0

unfoldable pub deep_color : ColorDepth → ColorSpace → ℕ → Bool
unfolding deep_color_bits
deep_color depth ycbcr444 bits = any_bit bits 0x08 && not (deep_color_bits depth bits == 0)
deep_color depth space bits = not (deep_color_bits depth bits == 0)

-- `if (blockLength >= POS) … gEdidData[StartAddr + POS] …` at the block at `start`.
unfoldable pub block_field : {A : Type 0} → ℕ → (ℕ → A) → ℕ → State → Run (Option A)
block_field pos f start s = byte s start >>= λ head. elim (leb pos (bit_and head size_mask)) [
  | true ↦ byte s (start + pos) >>= λ b. done (some (f b))
  | false ↦ done none
]

unfoldable pub color_depth_body : ColorDepth → ColorSpace → ℕ → M (Option Bool)
unfolding block_field deep_color
color_depth_body depth space start =
    reading (block_field 6 (λ dc. deep_color depth space (bit_and dc 0x78)) start)

unfoldable pub has_color_space : ColorSpace → ℕ → Bool
has_color_space rgb cs = false
has_color_space ycbcr444 cs = any_bit cs 0x20
has_color_space ycbcr422 cs = any_bit cs 0x10

unfoldable pub has_colorimetry : Colorimetry → ℕ → ℕ → Bool
has_colorimetry extended_xvycc601 c metadata = any_bit c 0x01 && not (metadata == 0)
has_colorimetry extended_xvycc709 c metadata = any_bit c 0x02 && not (metadata == 0)
has_colorimetry color c metadata = false

unfoldable pub colorimetry_body :
    Colorimetry → State → ℕ → ℕ → ℕ → Unit {0} → Run (Step (Unit {0}) Bool)
colorimetry_body color s offset tag block_len _ = elim (tag == extended_tag) [
  | false ↦ done (next tt)
  | true ↦ byte s (offset + 1) >>= λ code. elim (code == 5 && block_len == 4) [
    | false ↦ done (next tt)
    | true ↦ byte s (offset + 2) >>= λ c.
        byte s (offset + 3) >>= λ metadata. done (ret (has_colorimetry color c metadata))
  ]
]

unfoldable pub max_tmds_body : ℕ → M (Option ℕ)
unfolding block_field
max_tmds_body start = reading (block_field 7 (λ clock. clock) start)

-- The colour space bits of extension `i`.
unfoldable pub read_color_space : ColorSpace → ℕ → State → Run (Option Bool)
unfolding has_color_space
read_color_space space i s = byte s (i * block_size + 3) >>= λ cs.
    done (if has_color_space space cs then some true else none)

-- What the loop over the data blocks of extension `i` returns, if it returns.
unfoldable pub read_colorimetry : Colorimetry → ℕ → State → Run (Option Bool)
unfolding colorimetry_body has_colorimetry
read_colorimetry color i s = scan_extension s i (colorimetry_body color s) tt >>= λ r. elim r [
  | ret found ↦ done (some found)
  | next _ ↦ done none
]

module _ (host : Host) where
  unfoldable pub check_color_depth : ColorDepth → ColorSpace → M Bool
  check_color_depth cd24 space = pure true
  check_color_depth depth space =
      unless_false (edid_read host) false
        (find_extension (vsdb_extension host (color_depth_body depth space)) false)

  unfoldable pub check_color_space : ColorSpace → M Bool
  check_color_space rgb = pure true
  check_color_space space =
      unless_false (edid_read host) false
        (find_extension (timing_body host (λ i. reading (read_color_space space i))) false)

  unfoldable pub extended_colorimetry : Colorimetry → M Bool
  extended_colorimetry color =
      unless_false (edid_read host) false
        (find_extension (timing_body host (λ i. reading (read_colorimetry color i))) false)

  unfoldable pub check_colorimetry : Colorimetry → M Bool
  check_colorimetry no_data = pure true
  check_colorimetry itu601 = pure true
  check_colorimetry itu709 = pure true
  check_colorimetry color = extended_colorimetry color

  unfoldable pub get_max_tmds : M ℕ
  get_max_tmds = find_extension (vsdb_extension host max_tmds_body) 0
