-- ===== src/Edid/Checksum/Sum.antt =====
-- CalcChecksum against the sum of the bytes.
use exynos.Common.{
  ℕ, zero, suc, ◌+◌, ◌%◌, ◌^◌, ◌≤◌, ◌<◌, ◌≡◌, refl, ◌≢◌, done, List, ◌++◌, get_or-append_left,
  get_or-append_right, length, get_or, read_at, read_at-of_lt, ◌==◌, u8, lt→ltb, le→ltb, arith,
  >>=-eq-done, ap,
}
use native.Mathlib.Nat.{add_assoc}
use exynos.Edid.Checksum.{checksum_loop, calc_checksum}

-- The sum of `n` bytes from `i` on.
unfoldable pub sum_range : List ℕ → ℕ → ℕ → ℕ
sum_range buf i zero = 0
sum_range buf i (suc n) = get_or buf i 0 + sum_range buf (i + 1) n

pub sum_range-append_right :
    (xs ys : List ℕ) (n i k : ℕ) → k ≡ length xs + i → sum_range (xs ++ ys) k n ≡ sum_range ys i n
unfolding sum_range
sum_range-append_right xs ys zero i k e = refl
sum_range-append_right xs ys (suc n) i k e =
    ground (arith, get_or-append_right xs ys i k 0, sum_range-append_right xs ys n (i + 1) (k + 1))

pub sum_range-append_left :
    (xs ys : List ℕ) (n i : ℕ) → i + n ≤ length xs → sum_range (xs ++ ys) i n ≡ sum_range xs i n
unfolding sum_range
sum_range-append_left xs ys zero i h = refl
sum_range-append_left xs ys (suc n) i h =
    ground (arith, get_or-append_left xs ys i 0, sum_range-append_left xs ys n (i + 1))

no_wrap : (i : ℕ) → i < 255 → (i + 1) % 2 ^ 8 ≡ i + 1
no_wrap i h = omega arith

sum_wrap : (sum b : ℕ) → (sum % 256 + b) % 2 ^ 8 ≡ (sum + b) % 256
sum_wrap sum b = omega arith

checksum_loop_lem :
    (buf : List ℕ) (size : ℕ)
    → size < 256
    → size ≤ length buf
    → (n fuel i sum : ℕ) → i + n ≡ size
    → n < fuel
    → checksum_loop fuel buf size i (sum % 256) ≡ done ((sum + sum_range buf i n) % 256)
unfolding checksum_loop sum_range
checksum_loop_lem buf size lt le n zero i sum e h = absurd (omega arith)
checksum_loop_lem buf size lt le zero (suc fuel) i sum e h =
    rw (le→ltb i size (omega arith), checksum_loop) (ap done (omega arith))
checksum_loop_lem buf size lt le (suc n) (suc fuel) i sum e h = ground (
  arith,
  read_at-of_lt buf i 0,
  no_wrap i,
  sum_wrap sum (get_or buf i 0),
  add_assoc sum (get_or buf i 0) (sum_range buf (i + 1) n),
  checksum_loop_lem buf size lt le n fuel (i + 1) (sum + get_or buf i 0),
)

-- For fewer than 256 bytes, all of them in the buffer, the function returns and says whether their
-- sum is 0 modulo 256.
pub calc_checksum_lem :
    (buf : List ℕ) (size : ℕ)
    → size < 256
    → size ≤ length buf
    → calc_checksum buf size ≡ done (sum_range buf 0 size % 256 == 0)
unfolding calc_checksum
calc_checksum_lem buf size lt le =
    rw (checksum_loop_lem buf size lt le size (suc size) 0 0 (omega arith) (omega arith))
      (ap (λ t. done (t % 256 == 0)) (omega arith))

-- The counter is an `unsigned char`: for 256 bytes or more the loop returns after no number of
-- rounds.
pub checksum_loop-endless :
    (fuel : ℕ) (buf : List ℕ) (size i sum r : ℕ)
    → 256 ≤ size
    → i < 256
    → checksum_loop fuel buf size i sum ≢ done r
unfolding checksum_loop
checksum_loop-endless zero buf size i sum r h lt e = cc
checksum_loop-endless (suc fuel) buf size i sum r h lt e =
    let (b, _, rest) =
      >>=-eq-done (read_at buf i) (λ b. checksum_loop fuel buf size (u8 (i + 1)) (u8 (sum + b)))
        (rw (lt→ltb i size (omega arith), checksum_loop) at e) in
    checksum_loop-endless fuel buf size (u8 (i + 1)) (u8 (sum + b)) r h (omega arith) rest
