-- ===== src/Edid/Tests/Service.antt =====
-- EDIDRead at a host that serves the sample's two blocks by segment and offset.
use exynos.Common.{ℕ, Option, none, some, List, ◌∷◌, ◌++◌, get_or, u8}
use exynos.Ddc.{Host, I2cMsg, Reply}
use exynos.Edid.Sample.{sink, base_block, extension_block, nth}
use exynos.Edid.Loaded.Served.{reply}

abbrev mem : ℕ → ℕ
mem i = u8 (get_or (base_block ++ extension_block) i 0)

abbrev answer : List I2cMsg → Option Reply
answer (m0 ∷ m1 ∷ _) = some (reply mem (nth m0.bytes 0) (nth m1.bytes 0))
answer _ = none

abbrev server : Host
server = record sink { transfer = λ _ _ msgs. answer msgs }
