-- ===== src/Edid/State.antt =====
-- The statics of libedid.c, and the functions that read, reset, open and close the EDID.
use exynos.Common.{
  ℕ, zero, suc, ◌+◌, ◌*◌, ◌/◌, ◌%◌, Bool, true, false, Run, done, fault, read_at, Option, none,
  some, List, ◌++◌, ◌==◌, ltb, if◌then◌else◌, u8, tabulate,
}
use exynos.Common.Outcome.{◌>>=◌}
use exynos.Ddc
use exynos.Ddc.{Ddc, Host, ddc_open, ddc_close, eddc_read}
use exynos.Edid.Checksum.{calc_checksum}

-- `gEdidData` (`none` is NULL), `gExtensions`, `aVIC`, and the state of libddc.
pub record State : Type 0 where
  pub bytes : Option (List ℕ)
  pub extensions : ℕ
  pub vics : List ℕ
  pub ddc : Ddc

abbrev pub block_size : ℕ
block_size = 0x80

abbrev pub num_of_vic_for_3d : ℕ
num_of_vic_for_3d = 16

abbrev pub initial : State
initial = record {
  bytes = none;
  extensions = 0;
  vics = tabulate num_of_vic_for_3d 0 (λ _. 0);
  ddc = Ddc.initial;
}

-- Code that reads and writes the statics.
abbrev pub M : Type 0 → Type 0
M A = State → Run (A × State)

abbrev pub pure : {A : Type 0} → A → M A
pure a s = done (a, s)

abbrev pub bind : {A B : Type 0} → M A → (A → M B) → M B
bind m f s = m s >>= λ r. f r.0 r.1

-- Code that only reads them.
abbrev pub reading : {A : Type 0} → (State → Run A) → M A
reading f s = f s >>= λ a. done (a, s)

-- `gEdidData[i]`: through NULL or past the end of the allocation it is undefined.
abbrev pub byte : State → ℕ → Run ℕ
byte s i = elim s.bytes [ none ↦ fault | some d ↦ read_at d i ]

unfoldable pub edid_valid : State → Bool
edid_valid s = elim s.bytes [ none ↦ false | some _ ↦ true ]

unfoldable pub edid_reset : State → State
edid_reset s = record s { bytes = none }

-- The end of EDIDRead: several extensions must begin with a block map.
unfoldable pub check_block_map : List ℕ → M Bool
check_block_map d s =
    let s' = record s { bytes = some d } in
    elim (ltb 1 s.extensions) [
      | false ↦ done (true, s')
      | true ↦ read_at d block_size >>= λ tag.
          done (if tag == 0xf0 then (true, s') else (false, edid_reset s'))
    ]

module _ (host : Host) where
  -- The buffer, if it was read and its checksum is right.
  unfoldable pub read_edid_block : ℕ → Ddc → Run (Option (List ℕ) × Ddc)
  read_edid_block block_num d =
      let (r, d') =
        eddc_read host 0x60 (u8 (block_num / 2)) 0xa0 (u8 (block_num % 2 * block_size)) block_size
          d in
      elim r [
        | none ↦ done (none, d')
        | some buf ↦ calc_checksum buf block_size >>= λ ok. done (if ok then some buf else none, d')
      ]

  -- The loop of EDIDRead: `n` blocks from `block` on, appended to what is read already.
  unfoldable pub read_extensions : ℕ → ℕ → List ℕ → Ddc → Run (Option (List ℕ) × Ddc)
  read_extensions zero block acc d = done (some acc, d)
  read_extensions (suc n) block acc d = read_edid_block block d >>= λ r. elim r.0 [
    | none ↦ done (none, r.1)
    | some buf ↦ read_extensions n (block + 1) (acc ++ buf) r.1
  ]

  -- EDIDRead after block 0 has been read into `temp`.
  unfoldable pub read_rest : List ℕ → M Bool
  read_rest temp s = read_at temp 0x7e >>= λ n.
      let s1 = record s { extensions = n; ddc = Ddc.tick s.ddc } in
      elim (host.malloc s.ddc.clock ((n + 1) * block_size)) [
        | true ↦ read_extensions n 1 temp s1.ddc >>= λ r. elim r.0 [
          | none ↦ done (false, edid_reset (record s1 { ddc = r.1 }))
          | some d ↦ check_block_map d (record s1 { ddc = r.1 })
        ]
        | false ↦ done (false, s1)
      ]

  unfoldable pub edid_read : M Bool
  edid_read s = elim (edid_valid s) [
    | true ↦ done (true, s)
    | false ↦ read_edid_block 0 s.ddc >>= λ r. elim r.0 [
      | none ↦ done (false, record s { ddc = r.1 })
      | some temp ↦ read_rest temp (record s { ddc = r.1 })
    ]
  ]

  unfoldable pub edid_open : State → Bool × State
  edid_open s = let (r, d) = ddc_open host s.ddc in (r, record s { ddc = d })

  unfoldable pub edid_close : State → Bool × State
  edid_close s =
      let s' = edid_reset s in let (r, d) = ddc_close host s'.ddc in (r, record s' { ddc = d })
