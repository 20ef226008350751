-- ===== src/Edid/Loaded/Read.antt =====
-- EDIDRead as a whole: its end, and the cases of its beginning.
use exynos.Common.{
  ℕ, ◌+◌, ◌*◌, ◌<◌, ◌≡◌, refl, ◌∙◌, Bool, true, false, done, Option, none, some, List, length,
  get_or, read_at-of_lt, ltb, ◌==◌, Ensures, Ensures-bind, Bool-cases, Option-cases, inl, inr,
  arith, ==→eq, ltb→lt,
}
use exynos.Ddc
use exynos.Ddc.{Ddc, Host, Reply, filled, segment_msgs, eddc_read}
use exynos.Edid.State.{
  State, block_size, edid_valid, edid_reset, read_edid_block, read_extensions, read_rest,
  check_block_map, edid_read,
}
use exynos.Edid.Loaded.{
  IsBlock, AreBlocks, IsValid, BlockOr, BlocksOr, read_edid_block-BlockOr, read_extensions-BlocksOr,
}

-- The result: no EDID and the value false, or a whole EDID and the value true.
abbrev pub Read : Bool × State → Type 0
Read r = IsValid r.1 × (edid_valid r.1 ≡ r.0)

many_blocks :
    (d : List ℕ) (s : State)
    → AreBlocks (s.extensions + 1) d
    → ltb 1 s.extensions ≡ true
    → 128 < length d
many_blocks d s h many = omega (arith, h.size, ltb→lt 1 s.extensions many)

check_block_map-Read :
    (d : List ℕ) (s : State)
    → AreBlocks (s.extensions + 1) d
    → get_or d 0x7e 0 ≡ s.extensions
    → Ensures Read (check_block_map d s)
unfolding check_block_map edid_valid edid_reset
check_block_map-Read d s h c = elim (Bool-cases (ltb 1 s.extensions)) [
  | inl many ↦ elim (Bool-cases (get_or d 128 0 == 0xf0)) [
    | inl map_tag ↦
        rw (many, check_block_map, read_at-of_lt d block_size 0 (many_blocks d s h many), map_tag)
          (record { blocks = h; count = c; mapped = λ _. ==→eq _ _ map_tag }, refl)
    | inr other ↦
        rw (many, check_block_map, read_at-of_lt d block_size 0 (many_blocks d s h many), other)
          (tt, refl)
  ]
  | inr one ↦
      rw (one, check_block_map)
        (record { blocks = h; count = c; mapped = λ lt. absurd (ground arith) }, refl)
]

AreBlocks-of_block : (b : List ℕ) → IsBlock b → AreBlocks 1 b
AreBlocks-of_block b v = record {
  size = v.size;
  small = v.small;
  checked = λ j lt. let e : j ≡ 0 = omega arith in rw e v.checked;
}

-- What follows the loop of EDIDRead, for either result of the loop.
loop_end-Read :
    (temp : List ℕ) (s : State) (r : Option (List ℕ))
    → 126 < length temp
    → get_or temp 0x7e 0 ≡ s.extensions
    → BlocksOr (s.extensions + 1) temp r
    → Ensures Read (elim r [ none ↦ done (false, edid_reset s) | some d ↦ check_block_map d s ])
unfolding edid_reset edid_valid
loop_end-Read temp s none lt c h = (tt, refl)
loop_end-Read temp s (some d) lt c h = check_block_map-Read d s h.0 (h.1 0x7e lt ∙ c)

module _ (host : Host) where
  read_rest-Read :
      (temp : List ℕ) (s : State)
      → s.bytes ≡ none
      → IsBlock temp
      → Ensures Read (read_rest host temp s)
  unfolding read_rest edid_valid
  read_rest-Read temp s e v =
      let n = get_or temp 0x7e 0 in
      let at = read_at-of_lt temp 0x7e 0 (omega (arith, v.size)) in
      elim (Bool-cases (host.malloc s.ddc.clock ((n + 1) * block_size))) [
        | inl ok ↦
            rw (at, read_rest, ok)
              (Ensures-bind (λ r. BlocksOr (n + 1) temp r.0) Read
                (read_extensions host n 1 temp (Ddc.tick s.ddc)) _
                (read_extensions-BlocksOr host n 1 (n + 1) temp (Ddc.tick s.ddc) (omega arith)
                  (AreBlocks-of_block temp v))
                (λ r h.
                  loop_end-Read temp (record s { extensions = n; ddc = r.1 }) r.0
                    (omega (arith, v.size)) refl h))
        | inr no_memory ↦ rw (at, read_rest, no_memory, e) (tt, refl)
      ]

  first_block-Read :
      (s : State) (r : Option (List ℕ) × Ddc)
      → s.bytes ≡ none
      → BlockOr r.0
      → Ensures Read (elim r.0 [
        | none ↦ done (false, record s { ddc = r.1 })
        | some temp ↦ read_rest host temp (record s { ddc = r.1 })
      ])
  unfolding edid_valid
  first_block-Read s (none, d) e v = rw e (tt, refl)
  first_block-Read s (some temp, d) e v = read_rest-Read temp (record s { ddc = d }) e v

  pub edid_read-Read : (s : State) → IsValid s → Ensures Read (edid_read host s)
  unfolding edid_read edid_valid
  edid_read-Read s v = elim (Option-cases s.bytes) [
    | inr (d, e) ↦ rw (e, edid_read, edid_valid) (v, rw (e, edid_valid))
    | inl e ↦
        rw (e, edid_read, edid_valid)
          (Ensures-bind (λ r. BlockOr r.0) Read (read_edid_block host 0 s.ddc) _
            (read_edid_block-BlockOr host 0 s.ddc) (λ r h. first_block-Read s r e h))
  ]

  -- A second call finds the EDID and asks the device for nothing.
  pub edid_read-cached : (s : State) → edid_valid s ≡ true → edid_read host s ≡ done (true, s)
  unfolding edid_read
  edid_read-cached s e = rw (e, edid_read)
