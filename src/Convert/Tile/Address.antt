-- ===== src/Convert/Tile/Address.antt =====
-- Tile2D_To_Linear gives every pixel of a tiled plane a place of its own.
use exynos.Common.{
  ℕ, ◌+◌, ◌-◌, ◌*◌, ◌/◌, ◌%◌, ◌^◌, ◌<◌, ◌≤◌, ◌≡◌, u32, bit_or, refl, ap, ◌∙◌, sym, Bool, true,
  false, bit_and, arith, bit_or-shifted, bit_and-seven, bit_and-fifteen,
}
use native.Mathlib.Nat.{mul-le-mul_right}
use native.Mathlib.Decide.{dec_lt}
use exynos.Convert.Tile.{aligned, tile2d_to_linear}

-- The rows of a tile: 16 in the Y plane, 8 in the CbCr plane.
abbrev pub tile_rows : Bool → ℕ
tile_rows false = 16
tile_rows true = 8

-- Tile by tile, and in a tile row by row.
abbrev pub place : ℕ → ℕ → ℕ → Bool → ℕ
place width x y cr =
    (y / tile_rows cr * (aligned width / 16) + x / 16) * (tile_rows cr * 16)
    + (y % tile_rows cr * 16 + x % 16)

pub tile2d_to_linear-tiles :
    (width height x y : ℕ) (cr : Bool)
    → place width x y cr < 2 ^ 32
    → tile2d_to_linear width height x y cr ≡ place width x y cr
unfolding tile2d_to_linear
tile2d_to_linear-tiles width height x y false small =
    let t = y / 16 * (aligned width / 16) + x / 16 in
    let whole : u32 (u32 t * 2 ^ 8) ≡ t * 2 ^ 8 = omega (arith, small) in
    omega (
      arith,
      ap (λ (w : ℕ). bit_or w (bit_and y 15 * 16 + bit_and x 15)) whole,
      bit_or-shifted 8 t (bit_and y 15 * 16 + bit_and x 15)
          (omega (arith, bit_and-fifteen x, bit_and-fifteen y)),
      bit_and-fifteen x,
      bit_and-fifteen y,
    )
tile2d_to_linear-tiles width height x y true small =
    let t = y / 8 * (aligned width / 16) + x / 16 in
    let whole : u32 (u32 t * 2 ^ 7) ≡ t * 2 ^ 7 = omega (arith, small) in
    omega (
      arith,
      ap (λ (w : ℕ). bit_or w (bit_and y 7 * 16 + bit_and x 15)) whole,
      bit_or-shifted 7 t (bit_and y 7 * 16 + bit_and x 15)
          (omega (arith, bit_and-fifteen x, bit_and-seven y)),
      bit_and-fifteen x,
      bit_and-seven y,
    )

-- An entry of a row stands before the next rows.
pub row_before : (n a b c : ℕ) → b < n → a < c → a * n + b < c * n
row_before n a b c hb h = omega (arith, mul-le-mul_right n h)

-- Rows of `n` entries do not overlap.
pub rows_apart : (n a b c d : ℕ) → b < n → d < n → a * n + b ≡ c * n + d → (a ≡ c) × (b ≡ d)
rows_apart n a b c d hb hd e = elim (dec_lt a c) [
  | yes p ↦ absurd (omega (arith, row_before n a b c hb p))
  | no p ↦ elim (dec_lt c a) [
    | yes q ↦ absurd (omega (arith, row_before n c d a hd q))
    | no q ↦ let s : a ≡ c = omega arith in (s, omega (arith, ap (λ (t : ℕ). t * n) s))
  ]
]

-- Columns up to the aligned width.
tiles_across : (width x : ℕ) → x < width → width < 2 ^ 31 → x / 16 < aligned width / 16
unfolding aligned
tiles_across width x h k = omega arith

-- The number of the tile, and the place in the tile.
tile_parts :
    (cr : Bool) (a b x y x' y' : ℕ)
    → a * (tile_rows cr * 16) + (y % tile_rows cr * 16 + x % 16)
      ≡ b * (tile_rows cr * 16) + (y' % tile_rows cr * 16 + x' % 16)
    → (a ≡ b) × ((x % 16 ≡ x' % 16) × (y % tile_rows cr ≡ y' % tile_rows cr))
tile_parts false a b x y x' y' e = (omega arith, (omega arith, omega arith))
tile_parts true a b x y x' y' e = (omega arith, (omega arith, omega arith))

same_row :
    (cr : Bool) (y y' : ℕ)
    → y / tile_rows cr ≡ y' / tile_rows cr
    → y % tile_rows cr ≡ y' % tile_rows cr
    → y ≡ y'
same_row false y y' d m = omega arith
same_row true y y' d m = omega arith

tile_bound :
    (cr : Bool) (y height n t c addr : ℕ)
    → y < height
    → t < n
    → c < 16
    → addr ≡ (y / tile_rows cr * n + t) * (tile_rows cr * 16) + (y % tile_rows cr * 16 + c)
    → addr < (height + (tile_rows cr - 1)) / tile_rows cr * n * (tile_rows cr * 16)
tile_bound false y height n t c addr h k l e =
    omega (arith, row_before n (y / 16) t ((height + 15) / 16) k (omega arith))
tile_bound true y height n t c addr h k l e =
    omega (arith, row_before n (y / 8) t ((height + 7) / 8) k (omega arith))

-- The size of a tiled plane: the aligned width times the height in whole tiles.
abbrev pub tiled_size : ℕ → ℕ → Bool → ℕ
tiled_size width height cr =
    (height + (tile_rows cr - 1)) / tile_rows cr * (aligned width / 16) * (tile_rows cr * 16)

place-lt :
    (width height x y : ℕ) (cr : Bool)
    → width < 2 ^ 31
    → x < width
    → y < height
    → place width x y cr < tiled_size width height cr
place-lt width height x y cr w h k =
    tile_bound cr y height (aligned width / 16) (x / 16) (x % 16) _ k (tiles_across width x h w)
      (omega arith) refl

module _ (width height : ℕ) (cr : Bool) (w : width < 2 ^ 31)
    (size : tiled_size width height cr ≤ 2 ^ 32) where
  in_plane :
      (x y : ℕ) → x < width → y < height → tile2d_to_linear width height x y cr ≡ place width x y cr
  in_plane x y h k =
      let below = place-lt width height x y cr w h k in
      tile2d_to_linear-tiles width height x y cr (omega (arith, below, size))

  -- Two pixels of a plane have different places, if the tiled plane has at most 2 ^ 32 bytes and the width is less than
  -- 2 ^ 31.
  pub tile2d_to_linear-injective :
      (x y x' y' : ℕ)
      → x < width
      → y < height
      → x' < width
      → y' < height
      → tile2d_to_linear width height x y cr ≡ tile2d_to_linear width height x' y' cr
      → (x ≡ x') × (y ≡ y')
  tile2d_to_linear-injective x y x' y' h k h' k' e =
      let n = aligned width / 16 in
      let (tiles, low) =
        tile_parts cr (y / tile_rows cr * n + x / 16) (y' / tile_rows cr * n + x' / 16) x y x' y'
          (sym (in_plane x y h k) ∙ e ∙ in_plane x' y' h' k') in
      let (rows, columns) =
        rows_apart n (y / tile_rows cr) (x / 16) (y' / tile_rows cr) (x' / 16)
          (tiles_across width x h w) (tiles_across width x' h' w) tiles in
      (omega arith, same_row cr y y' rows low.1)

  -- A pixel's place lies in the tiled plane.
  pub tile2d_to_linear-lt :
      (x y : ℕ)
      → x < width
      → y < height
      → tile2d_to_linear width height x y cr < tiled_size width height cr
  tile2d_to_linear-lt x y h k = rw (in_plane x y h k) (place-lt width height x y cr w h k)
