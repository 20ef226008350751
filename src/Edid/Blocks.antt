-- ===== src/Edid/Blocks.antt =====
-- The data block collection of an EDID extension: the `while` loop that libedid.c writes in
-- GetVSDBOffset, IsContainVIC, CheckColorimetry, SaveVIC and EDIDAudioModeSupport, and the first two.
pub mod Encoding
pub mod Walk
pub mod Search
use exynos.Common.{
  ℕ, zero, suc, ◌+◌, ◌*◌, bit_and, Bool, true, false, not, ◌&&◌, ◌||◌, Run, done, fault, hang,
  Option, none, some, ◌==◌, ltb, if◌then◌else◌,
}
use exynos.Common.Outcome.{◌>>=◌}
use exynos.Edid.State.{State, block_size, byte, edid_valid}

abbrev pub tag_mask : ℕ
tag_mask = 0xe0

abbrev pub size_mask : ℕ
size_mask = 0x1f

abbrev pub audio_tag : ℕ
audio_tag = 0x20

abbrev pub video_tag : ℕ
video_tag = 0x40

abbrev pub vsdb_tag : ℕ
vsdb_tag = 0x60

abbrev pub extended_tag : ℕ
extended_tag = 0xe0

-- What a round of a loop does: it goes on with new values of the loop's variables, or it returns.
pub data Step (S A : Type 0) : Type 0 where
  next : S → Step S A
  ret : A → Step S A

-- `while (offset < end) { tag = …; blockLen = …; body; offset += blockLen; }`. The body is given
-- the offset, the tag and the length of the block, its header byte counted.
unfoldable pub scan_blocks :
    {S A : Type 0} → State → (ℕ → ℕ → ℕ → S → Run (Step S A)) → ℕ → ℕ → ℕ → S → Run (Step S A)
scan_blocks s body zero offset end x = hang
scan_blocks s body (suc fuel) offset end x = elim (ltb offset end) [
  | false ↦ done (next x)
  | true ↦ byte s offset >>= λ head.
      body offset (bit_and head tag_mask) (bit_and head size_mask + 1) x >>= λ r. elim r [
        | ret a ↦ done (ret a)
        | next y ↦ scan_blocks s body fuel (offset + (bit_and head size_mask + 1)) end y
      ]
]

-- A detailed timing offset is a byte, and every round goes on by one byte at least.
abbrev pub scan_fuel : ℕ
scan_fuel = 256

-- The loop over the data blocks of one extension.
unfoldable pub scan_extension :
    {S A : Type 0} → State → ℕ → (ℕ → ℕ → ℕ → S → Run (Step S A)) → S → Run (Step S A)
unfolding scan_blocks
scan_extension s extension body x = byte s (extension * block_size + 2) >>= λ dtd.
    scan_blocks s body scan_fuel (extension * block_size + 4) (extension * block_size + dtd) x

-- `a && k`, where `k` reads memory only if `a` holds.
infixr 34 ◌&&then◌
abbrev pub ◌&&then◌ : Bool → Run Bool → Run Bool
false &&then k = done false
true &&then k = k

-- The test of GetVSDBOffset: the tag, the identifier 0x000C03 and the minimal length.
abbrev pub is_hdmi_vsdb : State → ℕ → ℕ → ℕ → Run Bool
is_hdmi_vsdb s offset tag block_len =
    (tag == vsdb_tag)
    &&then (byte s (offset + 1) >>= λ a.
        (a == 0x03)
        &&then (byte s (offset + 2) >>= λ b.
            (b == 0x0c)
            &&then (byte s (offset + 3) >>= λ c. (c == 0x00) &&then done (ltb 5 block_len))))

unfoldable pub vsdb_body : State → ℕ → ℕ → ℕ → Unit {0} → Run (Step (Unit {0}) ℕ)
vsdb_body s offset tag block_len _ =
    is_hdmi_vsdb s offset tag block_len >>= λ found. done (if found then ret offset else next tt)

-- The offset of the HDMI vendor specific data block, 0 if there is none.
unfoldable pub get_vsdb_offset : State → ℕ → Run ℕ
unfolding edid_valid scan_extension vsdb_body
get_vsdb_offset s extension = elim (not (edid_valid s) || ltb s.extensions extension) [
  | true ↦ done 0
  | false ↦ scan_extension s extension (vsdb_body s) tt >>= λ r. elim r [
    | ret offset ↦ done offset
    | next _ ↦ done 0
  ]
]

-- `for (i = …; i < blockLen; i++) if (VIC == (gEdidData[ExtAddr+i] & EDID_SVD_VIC_MASK)) return 1;`
unfoldable pub svd_loop : State → ℕ → ℕ → ℕ → ℕ → Run Bool
svd_loop s vic addr zero i = done false
svd_loop s vic addr (suc n) i = byte s (addr + i) >>= λ b. elim (vic == bit_and b 0x7f) [
  | true ↦ done true
  | false ↦ svd_loop s vic addr n (i + 1)
]

unfoldable pub vic_body : State → ℕ → ℕ → ℕ → ℕ → Unit {0} → Run (Step (Unit {0}) (Unit {0}))
vic_body s vic offset tag zero _ = done (next tt)
vic_body s vic offset tag (suc n) _ = elim (tag == video_tag) [
  | false ↦ done (next tt)
  | true ↦ svd_loop s vic offset n 1 >>= λ found. done (if found then ret tt else next tt)
]

-- Whether a short video descriptor of the extension has the code. The detailed timing offset is
-- read before the EDID is tested.
unfoldable pub is_contain_vic : State → ℕ → ℕ → Run Bool
unfolding edid_valid scan_extension vic_body svd_loop
is_contain_vic s extension vic = byte s (extension * block_size + 2) >>= λ _.
    elim (not (edid_valid s) || ltb s.extensions extension) [
      | true ↦ done false
      | false ↦ scan_extension s extension (vic_body s vic) tt >>= λ r. elim r [
        | ret _ ↦ done true
        | next _ ↦ done false
      ]
    ]
