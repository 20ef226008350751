-- ===== src/Common/Digits.antt =====
-- `|` of a shifted field with a low one is a sum, and `&` with a mask of low bits is a remainder.
use Prim.Native.Nat.{
  ℕ, zero, suc, ◌+◌, ◌*◌, ◌/◌, ◌%◌, ◌^◌, ◌≤◌, ◌<◌, min, max, digits, bit_and, bit_or,
  bit_and-bitwise, bit_or-bitwise,
}
use mathlib.Core.Path.{◌≡◌, refl, sym, ap, ◌∙◌}
use native.Mathlib.Nat.{div-div-eq-div-mul, pow-suc, pow-succ'}
use native.Mathlib.Omega.{arith}

-- The recursion on digits has as many rounds as its first number, which are more than it needs.
module _ (end : ℕ → ℕ) (op : ℕ → ℕ → ℕ) where
  rounds_agree : (i j x y : ℕ) → x ≤ i → x ≤ j → digits end op i x y ≡ digits end op j x y
  rounds_agree zero zero zero y hi hj = refl
  rounds_agree zero (suc j) zero y hi hj = refl
  rounds_agree (suc i) zero zero y hi hj = refl
  rounds_agree (suc i) (suc j) zero y hi hj = refl
  rounds_agree zero j (suc x) y hi hj = absurd (omega arith)
  rounds_agree (suc i) zero (suc x) y hi hj = absurd (omega arith)
  rounds_agree (suc i) (suc j) (suc x) y hi hj =
      ap (λ (t : ℕ). t * 2 + op (suc x % 2) (y % 2))
        (rounds_agree i j (suc x / 2) (y / 2) (omega arith) (omega arith))

or_zero_left : (y : ℕ) → bit_or 0 y ≡ y
or_zero_left y = bit_or-bitwise 0 y

and_zero_left : (y : ℕ) → bit_and 0 y ≡ 0
and_zero_left y = bit_and-bitwise 0 y

-- One digit of `|`.
or_digit : (x y : ℕ) → bit_or x y ≡ bit_or (x / 2) (y / 2) * 2 + max (x % 2) (y % 2)
or_digit zero y = omega (arith, or_zero_left y, or_zero_left (y / 2))
or_digit (suc x) y = omega (
  arith,
  bit_or-bitwise (suc x) y,
  bit_or-bitwise (suc x / 2) (y / 2),
  rounds_agree (λ b. b) max x (suc x / 2) (suc x / 2) (y / 2) (omega arith) (omega arith),
)

-- One digit of `&`.
and_digit : (x y : ℕ) → bit_and x y ≡ bit_and (x / 2) (y / 2) * 2 + min (x % 2) (y % 2)
and_digit zero y = omega (arith, and_zero_left y, and_zero_left (y / 2))
and_digit (suc x) y = omega (
  arith,
  bit_and-bitwise (suc x) y,
  bit_and-bitwise (suc x / 2) (y / 2),
  rounds_agree (λ _. 0) min x (suc x / 2) (suc x / 2) (y / 2) (omega arith) (omega arith),
)

or_zero_below : (n x : ℕ) → x < n → bit_or x 0 ≡ x
or_zero_below zero x h = absurd (omega arith)
or_zero_below (suc n) zero h = refl
or_zero_below (suc n) (suc x) h =
    omega (arith, or_digit (suc x) 0, or_zero_below n (suc x / 2) (omega arith))

and_zero_below : (n x : ℕ) → x < n → bit_and x 0 ≡ 0
and_zero_below zero x h = absurd (omega arith)
and_zero_below (suc n) zero h = refl
and_zero_below (suc n) (suc x) h =
    omega (arith, and_digit (suc x) 0, and_zero_below n (suc x / 2) (omega arith))

-- A field above `k` low bits.
pub bit_or-shifted : (k x y : ℕ) → y < 2 ^ k → bit_or (x * 2 ^ k) y ≡ x * 2 ^ k + y
bit_or-shifted zero x zero h =
    omega (arith, or_zero_below (suc x) x (omega arith), ap (λ (t : ℕ). bit_or t 0) (one x))
  where
    one : (x : ℕ) → x * 2 ^ 0 ≡ x
    one x = omega arith
bit_or-shifted zero x (suc y) h = absurd (omega arith)
bit_or-shifted (suc k) x y h = omega (
  arith,
  or_digit (x * 2 ^ suc k) y,
  twice x k,
  pow-suc 2 k,
  ap (λ (t : ℕ). bit_or t (y / 2)) (half x k),
  bit_or-shifted k x (y / 2) (omega (arith, pow-suc 2 k)),
)
  where
    twice : (x k : ℕ) → x * 2 ^ suc k ≡ x * 2 ^ k * 2
    twice x k = omega (arith, ap (λ (t : ℕ). x * t) (pow-suc 2 k))

    half : (x k : ℕ) → x * 2 ^ suc k / 2 ≡ x * 2 ^ k
    half x k = omega (arith, ap (λ (t : ℕ). x * t) (pow-suc 2 k))

-- Masks of 3, 4, 5 and 8 ones take as many digits.
pub and_one : (x : ℕ) → bit_and x 1 ≡ x % 2
and_one x = omega (arith, and_digit x 1, and_zero_below (suc (x / 2)) (x / 2) (omega arith))

and_three : (x : ℕ) → bit_and x 3 ≡ x % 4
and_three x = omega (arith, and_digit x 3, and_one (x / 2))

pub bit_and-seven : (x : ℕ) → bit_and x 7 ≡ x % 8
bit_and-seven x = omega (arith, and_digit x 7, and_three (x / 2))

pub bit_and-fifteen : (x : ℕ) → bit_and x 15 ≡ x % 16
bit_and-fifteen x = omega (arith, and_digit x 15, bit_and-seven (x / 2))

pub and_sixty_three : (x : ℕ) → bit_and x 63 ≡ x % 64
and_sixty_three x = omega (arith, and_digit x 63, and_digit (x / 2) 31, bit_and-fifteen (x / 2 / 2))

-- A mask without the lowest bit leaves an even number.
pub bit_and-even : (x : ℕ) → bit_and x 0x78 % 2 ≡ 0
bit_and-even x = omega (arith, and_digit x 0x78)

-- A mask without the lowest bit takes one digit less.
and_even : (x m : ℕ) → bit_and x (m * 2) ≡ bit_and (x / 2) m * 2
and_even x m = omega (arith, and_digit x (m * 2), ap (bit_and (x / 2)) (half_twice m))
  where
    half_twice : (m : ℕ) → m * 2 / 2 ≡ m
    half_twice m = omega arith

-- A mask that is moved by `k` places takes the digits from there on.
pub bit_and-mask : (k x m : ℕ) → bit_and x (m * 2 ^ k) ≡ bit_and (x / 2 ^ k) m * 2 ^ k
bit_and-mask zero x m = rw (one m, whole x) (one' (bit_and x m))
  where
    one : (y : ℕ) → y * 2 ^ 0 ≡ y
    one y = omega arith

    one' : (y : ℕ) → y ≡ y * 2 ^ 0
    one' y = omega arith

    whole : (y : ℕ) → y / 2 ^ 0 ≡ y
    whole y = omega arith
bit_and-mask (suc k) x m =
    rw (twice m, twice (bit_and (x / 2 ^ suc k) m), half)
      (and_even x (m * 2 ^ k) ∙ ap (λ (t : ℕ). t * 2) (bit_and-mask k (x / 2) m))
  where
    twice : (y : ℕ) → y * 2 ^ suc k ≡ y * 2 ^ k * 2
    twice y = omega (arith, ap (λ (t : ℕ). y * t) (pow-suc 2 k))

    half : x / 2 ^ suc k ≡ x / 2 / 2 ^ k
    half = ap (λ (t : ℕ). x / t) (pow-succ' 2 k) ∙ sym (div-div-eq-div-mul x 2 (2 ^ k))

-- The masks of the green and of the red field of an RGB565 pixel leave multiples of 32 and of 2048.
pub bit_and-green : (x : ℕ) → bit_and x 0x07e0 % 32 ≡ 0
bit_and-green x = omega (
  arith,
  and_even x 0x03f0,
  and_even (x / 2) 0x01f8,
  and_even (x / 2 / 2) 0x00fc,
  and_even (x / 2 / 2 / 2) 0x007e,
  and_even (x / 2 / 2 / 2 / 2) 0x003f,
)

upper_red : (x : ℕ) → bit_and x 0x07c0 % 64 ≡ 0
upper_red x = omega (
  arith,
  and_even x 0x03e0,
  and_even (x / 2) 0x01f0,
  and_even (x / 2 / 2) 0x00f8,
  and_even (x / 2 / 2 / 2) 0x007c,
  and_even (x / 2 / 2 / 2 / 2) 0x003e,
  and_even (x / 2 / 2 / 2 / 2 / 2) 0x001f,
)

pub bit_and-red : (x : ℕ) → bit_and x 0xf800 % 2048 ≡ 0
bit_and-red x = omega (
  arith,
  and_even x 0x7c00,
  and_even (x / 2) 0x3e00,
  and_even (x / 2 / 2) 0x1f00,
  and_even (x / 2 / 2 / 2) 0x0f80,
  and_even (x / 2 / 2 / 2 / 2) 0x07c0,
  upper_red (x / 2 / 2 / 2 / 2 / 2),
)
