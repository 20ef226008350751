-- ===== src/Edid/Sample.antt =====
-- A sink's EDID, and a host that sends it.
use exynos.Common.{ℕ, ◌+◌, true, none, some, List, [], ◌∷◌, ◌++◌, get_elem?}
use exynos.Ddc.{Host, I2cMsg}

-- One extension; a block of the collection each for video, audio, HDMI and colorimetry.
abbrev pub base_block : List ℕ
base_block =
    0 ∷ 255 ∷ 255 ∷ 255 ∷ 255 ∷ 255 ∷ 255 ∷ 0 ∷ 0 ∷ 0 ∷ 0 ∷ 0 ∷ 0 ∷ 0 ∷ 0 ∷ 0 ∷ 0 ∷ 0 ∷ 0 ∷ 0 ∷ 0
    ∷ 0 ∷ 0 ∷ 0 ∷ 0 ∷ 0 ∷ 0 ∷ 0 ∷ 0 ∷ 0 ∷ 0 ∷ 0 ∷ 0 ∷ 0 ∷ 0 ∷ 32 ∷ 0 ∷ 0 ∷ 0 ∷ 0 ∷ 0 ∷ 0 ∷ 0 ∷ 0 ∷ 0
    ∷ 0 ∷ 0 ∷ 0 ∷ 0 ∷ 0 ∷ 0 ∷ 0 ∷ 0 ∷ 0 ∷ 0 ∷ 0 ∷ 0 ∷ 0 ∷ 0 ∷ 0 ∷ 0 ∷ 0 ∷ 0 ∷ 0 ∷ 0 ∷ 0 ∷ 0 ∷ 0 ∷ 0
    ∷ 0 ∷ 0 ∷ 0 ∷ 0 ∷ 0 ∷ 0 ∷ 0 ∷ 0 ∷ 0 ∷ 0 ∷ 0 ∷ 0 ∷ 0 ∷ 0 ∷ 0 ∷ 0 ∷ 0 ∷ 0 ∷ 0 ∷ 0 ∷ 0 ∷ 0 ∷ 0 ∷ 0
    ∷ 0 ∷ 0 ∷ 0 ∷ 0 ∷ 0 ∷ 0 ∷ 0 ∷ 0 ∷ 0 ∷ 0 ∷ 0 ∷ 0 ∷ 0 ∷ 0 ∷ 0 ∷ 0 ∷ 0 ∷ 0 ∷ 0 ∷ 0 ∷ 0 ∷ 0 ∷ 0 ∷ 0
    ∷ 0 ∷ 0 ∷ 0 ∷ 0 ∷ 0 ∷ 0 ∷ 0 ∷ 0 ∷ 0 ∷ 1 ∷ 229 ∷ []

abbrev pub extension_block : List ℕ
extension_block =
    2 ∷ 3 ∷ 26 ∷ 240 ∷ 68 ∷ 144 ∷ 4 ∷ 5 ∷ 3 ∷ 35 ∷ 15 ∷ 127 ∷ 7 ∷ 104 ∷ 3 ∷ 12 ∷ 0 ∷ 16 ∷ 0 ∷ 184
    ∷ 45 ∷ 0 ∷ 227 ∷ 5 ∷ 3 ∷ 1 ∷ 1 ∷ 29 ∷ 0 ∷ 114 ∷ 81 ∷ 208 ∷ 30 ∷ 32 ∷ 0 ∷ 0 ∷ 0 ∷ 0 ∷ 0 ∷ 0 ∷ 0
    ∷ 0 ∷ 0 ∷ 0 ∷ 0 ∷ 0 ∷ 0 ∷ 0 ∷ 0 ∷ 0 ∷ 0 ∷ 0 ∷ 0 ∷ 0 ∷ 0 ∷ 0 ∷ 0 ∷ 0 ∷ 0 ∷ 0 ∷ 0 ∷ 0 ∷ 0 ∷ 0 ∷ 0
    ∷ 0 ∷ 0 ∷ 0 ∷ 0 ∷ 0 ∷ 0 ∷ 0 ∷ 0 ∷ 0 ∷ 0 ∷ 0 ∷ 0 ∷ 0 ∷ 0 ∷ 0 ∷ 0 ∷ 0 ∷ 0 ∷ 0 ∷ 0 ∷ 0 ∷ 0 ∷ 0 ∷ 0
    ∷ 0 ∷ 0 ∷ 0 ∷ 0 ∷ 0 ∷ 0 ∷ 0 ∷ 0 ∷ 0 ∷ 0 ∷ 0 ∷ 0 ∷ 0 ∷ 0 ∷ 0 ∷ 0 ∷ 0 ∷ 0 ∷ 0 ∷ 0 ∷ 0 ∷ 0 ∷ 0 ∷ 0
    ∷ 0 ∷ 0 ∷ 0 ∷ 0 ∷ 0 ∷ 0 ∷ 0 ∷ 0 ∷ 0 ∷ 0 ∷ 0 ∷ 0 ∷ 0 ∷ 0 ∷ 18 ∷ []

-- The byte at a place of a list, 0 past its end.
abbrev pub nth : List ℕ → ℕ → ℕ
nth xs i = elim (get_elem? xs i) [ none ↦ 0 | some b ↦ b ]

-- The offset that the second message of EDDCRead sets.
abbrev pub offset_of : List I2cMsg → ℕ
offset_of (_ ∷ m ∷ _) = nth m.bytes 0
offset_of _ = 0

-- A host whose sink sends the two blocks.
abbrev pub sink : Host
sink = record {
  open_device = λ _. some 3;
  close_device = λ _ _. true;
  transfer = λ _ _ msgs.
      some (record { ret = 3; at = λ i. nth (base_block ++ extension_block) (offset_of msgs + i) });
  set_slave = λ _ _ _. true;
  write = λ _ _ bytes. some 0;
  malloc = λ _ _. true;
}
