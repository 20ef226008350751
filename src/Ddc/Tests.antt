-- ===== src/Ddc/Tests.antt =====
-- libddc.c with a device that cannot be opened, and with one that can.
use exynos.Common.{ℕ, ◌≡◌, refl, true, false, none, some, arith}
use exynos.Ddc.{Host, initial, ddc_open, eddc_read}
use exynos.Ddc.Refs.{
  Reachable, start, step, Counts, opens, closes, Reachable-Counts, ddc_open-after_failure, after,
  segment_reads,
}

-- A host without a device.
abbrev absent : Host
absent = record {
  open_device = λ _. none;
  close_device = λ _ _. true;
  transfer = λ _ _ _. none;
  set_slave = λ _ _ _. false;
  write = λ _ _ _. none;
  malloc = λ _ _. true;
}

abbrev present : Host
present = record absent { open_device = λ clock. some 3 }

-- Two opens, a read and a close.
used : Reachable present 1 (
    after present closes (
      after present
        (segment_reads 0x60 0 0xa0 0 128)
        (after present opens (after present opens initial))))
used =
    step closes
      (step (segment_reads 0x60 0 0xa0 0 128)
        (step opens (step opens start (omega arith)) (omega arith)) (omega arith))
      (omega arith)

Reachable-Counts_example : Counts present 1 (
    after present closes (
      after present
        (segment_reads 0x60 0 0xa0 0 128)
        (after present opens (after present opens initial))))
Reachable-Counts_example =
    Reachable-Counts present 1
      (after present closes (
        after present (segment_reads 0x60 0 0xa0 0 128)
          (after present opens (after present opens initial))))
      used

ddc_open-after_failure_example :
    ((ddc_open absent initial).0 ≡ false)
    × ((ddc_open absent (ddc_open absent initial).1).0 ≡ true)
    × ((p s a o n : ℕ)
        → (eddc_read absent p s a o n (ddc_open absent (ddc_open absent initial).1).1).0 ≡ none)
ddc_open-after_failure_example = ddc_open-after_failure absent initial refl refl
