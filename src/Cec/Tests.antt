-- ===== src/Cec/Tests.antt =====
-- libcec.c on a bus on which one player has address 4.
use exynos.Common.{
  ℕ, ◌≡◌, refl, Bool, true, false, Option, none, some, List, [], ◌∷◌, ◌==◌, length, if◌then◌else◌,
  arith,
}
use exynos.Cec.{Cec, Driver, player, sent, report_frame, laddresses, cec_alloc_logical_address}
use exynos.Cec.Allocate.{
  first_free, poll_byte, with_set_laddr, cec_alloc_logical_address-first_free,
  cec_alloc_logical_address-set_laddr,
}

-- A poll is a frame of one byte.
abbrev written : List ℕ → Option ℕ
written (b ∷ []) = if b == 0x44 then some 1 else none
written bytes = some (length bytes)

abbrev bus : Driver
bus = record {
  open_device = λ _. some 3;
  close_device = λ _ _. true;
  set_laddr = λ _ _ _. true;
  write = λ _ _ bytes. written bytes;
  select = λ _ _ _. some 0;
  read = λ _ _ _. none;
}

abbrev opened : Cec
opened = record { fd = some 3; clock = 0 }

-- Whether the poll of an address is taken.
abbrev taken : ℕ → Bool
taken a = poll_byte a == 0x44

bus-Answers : (clock a : ℕ) → sent (bus.write clock 3 (poll_byte a ∷ [])) 1 ≡ taken a
bus-Answers clock a = ground arith

bus-report : (clock a : ℕ) → sent (bus.write clock 3 (report_frame a 0x1000 player)) 5 ≡ true
unfolding report_frame
bus-report clock a = refl

-- The next address of a player is 8.
first_free_test : first_free taken laddresses player ≡ 8
unfolding laddresses
first_free_test = refl

cec_alloc_logical_address-first_free_example :
    (cec_alloc_logical_address bus 0x1000 player opened).0 ≡ first_free taken laddresses player
cec_alloc_logical_address-first_free_example =
    cec_alloc_logical_address-first_free bus 3 taken 0x1000 player opened bus-Answers refl
      (λ e. absurd (omega (arith, e))) bus-report

cec_alloc_logical_address-set_laddr_example :
    cec_alloc_logical_address (with_set_laddr bus (λ _ _ _. false)) 0x1000 player opened
    ≡ cec_alloc_logical_address bus 0x1000 player opened
cec_alloc_logical_address-set_laddr_example =
    cec_alloc_logical_address-set_laddr bus (λ _ _ _. false) 0x1000 player opened
