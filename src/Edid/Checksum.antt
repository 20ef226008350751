-- ===== src/Edid/Checksum.antt =====
-- CalcChecksum of libedid.c. Both locals are `unsigned char` and wrap.
pub mod Sum
use exynos.Common.{
  ℕ, zero, suc, ◌+◌, Bool, true, false, Run, done, hang, read_at, List, ◌==◌, ltb, u8,
}
use exynos.Common.Outcome.{◌>>=◌}

-- `for (…; i < size; i++) sum += buffer[i];`, which yields the sum.
unfoldable pub checksum_loop : ℕ → List ℕ → ℕ → ℕ → ℕ → Run ℕ
checksum_loop zero buffer size i sum = hang
checksum_loop (suc fuel) buffer size i sum = elim (ltb i size) [
  | true ↦ read_at buffer i >>= λ b. checksum_loop fuel buffer size (u8 (i + 1)) (u8 (sum + b))
  | false ↦ done sum
]

-- `size` rounds and the last test.
unfoldable pub calc_checksum : List ℕ → ℕ → Run Bool
calc_checksum buffer size = checksum_loop (suc size) buffer size 0 0 >>= λ sum. done (sum == 0)
