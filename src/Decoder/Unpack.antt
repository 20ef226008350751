-- ===== src/Decoder/Unpack.antt =====
-- The fields of a frame packing message come out of the driver's words as they were put in, but for one bit.
use native.Mathlib.Nat.{mul-div_left, pow-suc}
use exynos.Common.{
  ◌∙◌, zero, suc, bit_and-mask, bit_and-fifteen, and_one, and_sixty_three, ℕ, ◌/◌, ◌%◌, ◌^◌, ◌<◌,
  ◌≡◌, refl, none, some, bit_and, arith,
}
use exynos.Decoder.Packing.{Fits, FramePacking, get_frame_packing_info, operate_bit, words_of}

two_pow_pos : (k : ℕ) → 0 < 2 ^ k
two_pow_pos zero = omega arith
two_pow_pos (suc k) = omega (arith, pow-suc 2 k, two_pow_pos k)

operate_bit_lem : (x m k : ℕ) → operate_bit x m k ≡ bit_and (x / 2 ^ k) m
unfolding operate_bit
operate_bit_lem x m k =
    rw (bit_and-mask k x m) (mul-div_left (bit_and (x / 2 ^ k) m) (two_pow_pos k))

flag_lem : (x k : ℕ) → operate_bit x 0x1 k ≡ x / 2 ^ k % 2
flag_lem x k = operate_bit_lem x 1 k ∙ and_one (x / 2 ^ k)

six_lem : (x k : ℕ) → operate_bit x 0x3f k ≡ x / 2 ^ k % 64
six_lem x k = operate_bit_lem x 0x3f k ∙ and_sixty_three (x / 2 ^ k)

four_lem : (x k : ℕ) → operate_bit x 0xf k ≡ x / 2 ^ k % 16
four_lem x k = operate_bit_lem x 0xf k ∙ bit_and-fifteen (x / 2 ^ k)

module _ (f : FramePacking) (fits : Fits f) where
  available_lem : (words_of f).available ≡ f.available
  unfolding words_of
  available_lem = refl

  arrangement_id_lem : (words_of f).argmt_id ≡ f.arrangement_id
  unfolding words_of
  arrangement_id_lem = refl

  arrangement_cancel_flag_lem : operate_bit (words_of f).info 0x1 0 ≡ f.arrangement_cancel_flag
  unfolding words_of
  arrangement_cancel_flag_lem =
      flag_lem (words_of f).info 0
      ∙ omega (
        arith, fits.cancel, fits.type, fits.quincunx, fits.content, fits.spatial, fits.flipped,
        fits.views,
      )

  arrangement_type_lem : operate_bit (words_of f).info 0x3f 1 ≡ f.arrangement_type % 64
  unfolding words_of
  arrangement_type_lem =
      six_lem (words_of f).info 1
      ∙ omega (
        arith, fits.cancel, fits.type, fits.quincunx, fits.content, fits.spatial, fits.flipped,
        fits.views,
      )

  quincunx_sampling_flag_lem : operate_bit (words_of f).info 0x1 8 ≡ f.quincunx_sampling_flag
  unfolding words_of
  quincunx_sampling_flag_lem =
      flag_lem (words_of f).info 8
      ∙ omega (
        arith, fits.cancel, fits.type, fits.quincunx, fits.content, fits.spatial, fits.flipped,
        fits.views,
      )

  content_interpretation_type_lem :
      operate_bit (words_of f).info 0x3f 9 ≡ f.content_interpretation_type
  unfolding words_of
  content_interpretation_type_lem =
      six_lem (words_of f).info 9
      ∙ omega (
        arith, fits.cancel, fits.type, fits.quincunx, fits.content, fits.spatial, fits.flipped,
        fits.views,
      )

  spatial_flipping_flag_lem : operate_bit (words_of f).info 0x1 15 ≡ f.spatial_flipping_flag
  unfolding words_of
  spatial_flipping_flag_lem =
      flag_lem (words_of f).info 15
      ∙ omega (
        arith, fits.cancel, fits.type, fits.quincunx, fits.content, fits.spatial, fits.flipped,
        fits.views,
      )

  frame0_flipped_flag_lem : operate_bit (words_of f).info 0x1 16 ≡ f.frame0_flipped_flag
  unfolding words_of
  frame0_flipped_flag_lem =
      flag_lem (words_of f).info 16
      ∙ omega (
        arith, fits.cancel, fits.type, fits.quincunx, fits.content, fits.spatial, fits.flipped,
        fits.views,
      )

  field_views_flag_lem : operate_bit (words_of f).info 0x1 17 ≡ f.field_views_flag
  unfolding words_of
  field_views_flag_lem =
      flag_lem (words_of f).info 17
      ∙ omega (
        arith, fits.cancel, fits.type, fits.quincunx, fits.content, fits.spatial, fits.flipped,
        fits.views,
      )

  current_frame_is_frame0_flag_lem :
      operate_bit (words_of f).info 0x1 18 ≡ f.current_frame_is_frame0_flag
  unfolding words_of
  current_frame_is_frame0_flag_lem =
      flag_lem (words_of f).info 18
      ∙ omega (
        arith, fits.cancel, fits.type, fits.quincunx, fits.content, fits.spatial, fits.flipped,
        fits.views,
      )

  frame0_grid_pos_x_lem : operate_bit (words_of f).grid_pos 0xf 0 ≡ f.frame0_grid_pos_x
  unfolding words_of
  frame0_grid_pos_x_lem =
      four_lem (words_of f).grid_pos 0 ∙ omega (arith, fits.x0, fits.y0, fits.x1, fits.y1)

  frame0_grid_pos_y_lem : operate_bit (words_of f).grid_pos 0xf 4 ≡ f.frame0_grid_pos_y
  unfolding words_of
  frame0_grid_pos_y_lem =
      four_lem (words_of f).grid_pos 4 ∙ omega (arith, fits.x0, fits.y0, fits.x1, fits.y1)

  frame1_grid_pos_x_lem : operate_bit (words_of f).grid_pos 0xf 8 ≡ f.frame1_grid_pos_x
  unfolding words_of
  frame1_grid_pos_x_lem =
      four_lem (words_of f).grid_pos 8 ∙ omega (arith, fits.x0, fits.y0, fits.x1, fits.y1)

  frame1_grid_pos_y_lem : operate_bit (words_of f).grid_pos 0xf 12 ≡ f.frame1_grid_pos_y
  unfolding words_of
  frame1_grid_pos_y_lem =
      four_lem (words_of f).grid_pos 12 ∙ omega (arith, fits.x0, fits.y0, fits.x1, fits.y1)

-- Fields that lie side by side in the words of the driver, seven bits being left for the type of the arrangement, come
-- back as they were, but for the type, of which the seventh bit is lost.
pub get_frame_packing_info-words_of :
    (f : FramePacking)
    → Fits f
    → get_frame_packing_info (some (words_of f))
      ≡ (none, record f { arrangement_type = f.arrangement_type % 64 })
unfolding get_frame_packing_info
get_frame_packing_info-words_of f fits =
    rw
      (
        available_lem f fits,
        arrangement_id_lem f fits,
        arrangement_cancel_flag_lem f fits,
        arrangement_type_lem f fits,
        quincunx_sampling_flag_lem f fits,
        content_interpretation_type_lem f fits,
        spatial_flipping_flag_lem f fits,
        frame0_flipped_flag_lem f fits,
        field_views_flag_lem f fits,
        current_frame_is_frame0_flag_lem f fits,
        frame0_grid_pos_x_lem f fits,
        frame0_grid_pos_y_lem f fits,
        frame1_grid_pos_x_lem f fits,
        frame1_grid_pos_y_lem f fits,
      )
      refl
