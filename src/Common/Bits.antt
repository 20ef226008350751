-- ===== src/Common/Bits.antt =====
-- Masks and shifts of bytes as arithmetic, checked on every byte.
use Prim.Native.Nat.{ℕ, zero, suc, ◌*◌, ◌/◌, ◌%◌, ◌^◌, ◌<◌, bit_and}
use mathlib.Core.Path.{◌≡◌, refl}
use mathlib.Core.Bool.{Bool, true, ◌&&◌}
use native.Mathlib.Omega.{arith}
use exynos.Common.Tests.{◌==◌, ==→eq}

-- x << k and x >> k on values that do not overflow.
infixl 68 ◌<<<◌ ◌>>>◌
abbrev pub ◌<<<◌ : ℕ → ℕ → ℕ
x <<< k = x * 2 ^ k

abbrev pub ◌>>>◌ : ℕ → ℕ → ℕ
x >>> k = x / 2 ^ k

-- `unsigned char` and `unsigned int`.
abbrev pub u8 : ℕ → ℕ
u8 x = x % 2 ^ 8

abbrev pub u32 : ℕ → ℕ
u32 x = x % 2 ^ 32

holds_below : (ℕ → Bool) → ℕ → Bool
holds_below p zero = true
holds_below p (suc n) = p n && holds_below p n

holds_below-at : (p : ℕ → Bool) (n i : ℕ) → holds_below p n ≡ true → i < n → p i ≡ true
unfolding holds_below
holds_below-at p zero i h lt = absurd (omega arith)
holds_below-at p (suc n) i h lt = ground (arith, holds_below-at p n i)

size_table : holds_below (λ b. bit_and b 0x1f == b % 32) 256 ≡ true
unfolding holds_below
size_table = refl

tag_table : holds_below (λ b. bit_and b 0xe0 == b / 32 * 32) 256 ≡ true
unfolding holds_below
tag_table = refl

vic_table : holds_below (λ b. bit_and b 0x7f == b % 128) 256 ≡ true
unfolding holds_below
vic_table = refl

-- The data block length bits of a byte.
pub bit_and-size : (b : ℕ) → b < 256 → bit_and b 0x1f ≡ b % 32
bit_and-size b h = ==→eq _ _ (holds_below-at _ 256 b size_table h)

-- The data block tag bits of a byte.
pub bit_and-tag : (b : ℕ) → b < 256 → bit_and b 0xe0 ≡ b / 32 * 32
bit_and-tag b h = ==→eq _ _ (holds_below-at _ 256 b tag_table h)

-- The video identification code bits of a byte.
pub bit_and-vic : (b : ℕ) → b < 256 → bit_and b 0x7f ≡ b % 128
bit_and-vic b h = ==→eq _ _ (holds_below-at _ 256 b vic_table h)
