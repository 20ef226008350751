-- ===== src/Edid/Loaded/Served.antt =====
-- EDIDRead at a sink that answers.
use exynos.Common.{ℕ, ◌+◌, ◌*◌, ◌%◌, ◌≤◌, ◌<◌, ◌≡◌, true, some, List, tabulate}
use exynos.Ddc
use exynos.Ddc.{Ddc, Host, Reply, segment_msgs}
use exynos.Edid.Checksum.Sum.{sum_range}
use exynos.Edid.State.{State}

-- The bytes of block `k` of a sink's memory.
abbrev pub block : (ℕ → ℕ) → ℕ → List ℕ
block mem k = tabulate 128 (k * 128) mem

-- What the sink sends when it is asked for a segment and an offset.
abbrev pub reply : (ℕ → ℕ) → ℕ → ℕ → Reply
reply mem g o = record { ret = 3; at = λ i. mem (g * 256 + o + i) }

-- The device sends the bytes of `mem`, which are an EDID with right checksums and, for several extensions, a block map;
-- there is always memory.
pub record Serves (host : Host) (fd : ℕ) (mem : ℕ → ℕ) : Type 0 where
  pub sends :
      (clock g o : ℕ)
      → host.transfer clock fd (segment_msgs 0x60 g 0xa0 o 128) ≡ some (reply mem g o)
  pub small : (i : ℕ) → mem i < 256
  pub checked : (k : ℕ) → k ≤ mem 126 → sum_range (block mem k) 0 128 % 256 ≡ 0
  pub mapped : 1 < mem 126 → mem 128 ≡ 0xf0
  pub allocates : (clock n : ℕ) → host.malloc clock n ≡ true
