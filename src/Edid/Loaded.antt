-- ===== src/Edid/Loaded.antt =====
-- What EDIDRead leaves in `gEdidData`, for every answer of the device.
pub mod Read
pub mod Served
use exynos.Common.{
  ℕ, zero, suc, ◌+◌, ◌-◌, ◌*◌, ◌/◌, ◌%◌, ◌^◌, ◌≤◌, ◌<◌, ◌≡◌, refl, ◌∙◌, ap, ◌≢◌, Bool, true, false,
  Run, done, Option, none, some, List, ◌++◌, length, get_or, get_or-append_left, All, All-append,
  All-tabulate, length-append, length-tabulate, read_at, read_at-of_lt, ltb, leb, ◌==◌, u8,
  tabulate, Ensures, Ensures-bind, Ensures-mono, Bool-cases, Option-cases, inl, inr, arith, ==→eq,
  ltb→lt, ◌⊎◌,
}
use native.Mathlib.Decide.{dec_lt}
use exynos.Common.Outcome.{◌>>=◌}
use exynos.Ddc
use exynos.Ddc.{Ddc, Host, Reply, filled, segment_msgs, eddc_read}
use exynos.Ddc.Transfer.{IsBytes, eddc_read-cases}
use exynos.Edid.Checksum.{calc_checksum}
use exynos.Edid.Checksum.Sum.{
  sum_range, calc_checksum_lem, sum_range-append_left, sum_range-append_right,
}
use exynos.Edid.State.{
  State, initial, block_size, edid_valid, edid_reset, read_edid_block, read_extensions, read_rest,
  check_block_map, edid_read,
}

-- Block `k` of the buffer has the checksum 0.
abbrev pub IsChecked : List ℕ → ℕ → Type 0
IsChecked d k = sum_range d (k * 128) 128 % 256 ≡ 0

-- A block as it is received.
pub record IsBlock (b : List ℕ) : Type 0 where
  pub size : length b ≡ 128
  pub small : IsBytes b
  pub checked : sum_range b 0 128 % 256 ≡ 0

-- The first `k` blocks as they stand in the buffer.
pub record AreBlocks (k : ℕ) (d : List ℕ) : Type 0 where
  pub size : length d ≡ k * 128
  pub small : IsBytes d
  pub checked : (j : ℕ) → j < k → IsChecked d j

-- The whole buffer: the base block names the number of extensions, and several extensions begin
-- with a block map.
pub record Loaded (n : ℕ) (d : List ℕ) : Type 0 where
  pub blocks : AreBlocks (n + 1) d
  pub count : get_or d 0x7e 0 ≡ n
  pub mapped : 1 < n → get_or d 128 0 ≡ 0xf0

abbrev pub LoadedOr : ℕ → Option (List ℕ) → Type 0
LoadedOr n none = Unit
LoadedOr n (some d) = Loaded n d

-- The invariant of the library's state: no EDID, or a whole one.
abbrev pub IsValid : State → Type 0
IsValid s = LoadedOr s.extensions s.bytes

abbrev pub BlockOr : Option (List ℕ) → Type 0
BlockOr none = Unit
BlockOr (some b) = IsBlock b

abbrev pub BlocksOr : ℕ → List ℕ → Option (List ℕ) → Type 0
BlocksOr k d none = Unit
BlocksOr k d (some e) = AreBlocks k e × ((i : ℕ) → i < length d → get_or e i 0 ≡ get_or d i 0)

module _ (host : Host) where
  -- A block is received whole and with a right checksum, or not at all.
  pub read_edid_block-BlockOr :
      (n : ℕ) (d : Ddc) → Ensures (λ r. BlockOr r.0) (read_edid_block host n d)
  unfolding read_edid_block
  read_edid_block-BlockOr n d =
      elim (eddc_read-cases host 0x60 (u8 (n / 2)) 0xa0 (u8 (n % 2 * block_size)) 128 d) [
        | inl e ↦ rw (e, read_edid_block) tt
        | inr (b, e, len, small) ↦
            let sum = calc_checksum_lem b 128 (omega arith) (omega arith) in
            elim (Bool-cases (sum_range b 0 128 % 256 == 0)) [
              | inl ok ↦
                  rw (e, read_edid_block, sum, ok)
                    (record { size = len; small = small; checked = ==→eq _ _ ok })
              | inr bad ↦ rw (e, read_edid_block, sum, bad) tt
            ]
      ]

IsChecked-append :
    (k : ℕ) (d b : List ℕ) → AreBlocks k d → IsBlock b → (j : ℕ) → j < k + 1 → IsChecked (d ++ b) j
IsChecked-append k d b h v j lt = elim (dec_lt j k) [
  | yes p ↦ omega (arith, sum_range-append_left d b 128 (j * 128) (omega arith), h.checked j p)
  | no p ↦ omega (arith, sum_range-append_right d b 128 0 (j * 128) (omega arith), v.checked)
]

pub AreBlocks-append :
    (k : ℕ) (d b : List ℕ) → AreBlocks k d → IsBlock b → AreBlocks (k + 1) (d ++ b)
AreBlocks-append k d b h v = record {
  size = omega (arith, length-append {0} d b);
  small = All-append (λ x. x < 256) d b h.small v.small;
  checked = IsChecked-append k d b h v;
}

BlocksOr-weaken :
    (m : ℕ) (acc buf : List ℕ) (r : Option (List ℕ)) → BlocksOr m (acc ++ buf) r → BlocksOr m acc r
BlocksOr-weaken m acc buf none h = tt
BlocksOr-weaken m acc buf (some e) h = (
  h.0,
  λ i lt. h.1 i (omega (arith, length-append {0} acc buf)) ∙ get_or-append_left acc buf i 0 lt,
)

abbrev EnsuresBlocks : ℕ → List ℕ → Run (Option (List ℕ) × Ddc) → Type 0
EnsuresBlocks m acc run = Ensures (λ r. BlocksOr m acc r.0) run

module _ (host : Host) where
  -- `read_extensions` keeps what is in front.
  pub read_extensions-BlocksOr :
      (n k m : ℕ) (acc : List ℕ) (d : Ddc)
      → k + n ≡ m
      → AreBlocks k acc
      → Ensures (λ r. BlocksOr m acc r.0) (read_extensions host n k acc d)
  unfolding read_extensions
  read_extensions-BlocksOr zero k m acc d e h =
      let e' : k ≡ m = omega arith in (rw (← e') h, λ i lt. refl)
  read_extensions-BlocksOr (suc n) k m acc d e h =
      Ensures-bind (λ r. BlockOr r.0) _ (read_edid_block host k d) _
        (read_edid_block-BlockOr host k d)
        (λ r v.
          step
            (λ buf d' w.
              read_extensions-BlocksOr n (k + 1) m (acc ++ buf) d' (omega arith)
                (AreBlocks-append k acc buf h w))
            r.0 r.1 v)
    where
      step :
          ((buf : List ℕ) (d' : Ddc)
            → IsBlock buf
            → EnsuresBlocks m (acc ++ buf) (read_extensions host n (k + 1) (acc ++ buf) d'))
          → (b : Option (List ℕ)) (d' : Ddc) → BlockOr b
          → EnsuresBlocks m acc (elim b [
            | none ↦ done (none, d')
            | some buf ↦ read_extensions host n (k + 1) (acc ++ buf) d'
          ])
      step rest none d' v = tt
      step rest (some buf) d' v =
          Ensures-mono (λ r. BlocksOr m (acc ++ buf) r.0) (λ r. BlocksOr m acc r.0)
            (read_extensions host n (k + 1) (acc ++ buf) d') (rest buf d' v)
            (λ r w. BlocksOr-weaken m acc buf r.0 w)
