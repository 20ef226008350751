-- ===== src/Ddc/Refs.antt =====
-- The reference count of libddc.c and the descriptor.
use exynos.Common.{ℕ, ◌+◌, ◌-◌, ◌^◌, ◌<◌, ◌≡◌, true, false, none, List, arith}
use exynos.Ddc.{Ddc, Host, initial, ddc_open, ddc_close, ddc_read, eddc_read, ddc_write}

-- The calls of the library.
pub data Call : Type 0 where
  opens closes : Call
  reads : ℕ → ℕ → ℕ → Call
  segment_reads : ℕ → ℕ → ℕ → ℕ → ℕ → Call
  writes : ℕ → ℕ → List ℕ → Call

-- How many of the references of `n` are held after a call: a close without an open is ignored.
abbrev pub counted : Call → ℕ → ℕ
counted opens n = n + 1
counted closes n = n - 1
counted _ n = n

module _ (host : Host) where
  -- The state that a call leaves.
  unfoldable pub after : Call → Ddc → Ddc
  after opens d = (ddc_open host d).1
  after closes d = (ddc_close host d).1
  after (reads a o n) d = (ddc_read host a o n d).2
  after (segment_reads p s a o n) d = (eddc_read host p s a o n d).1
  after (writes a o bs) d = (ddc_write host a o bs d).1

  -- The states that calls reach from the first one, with the references that are held, which are never more than
  -- `ref_cnt` can count.
  pub data Reachable : ℕ → Ddc → Type 0 where
    start : Reachable 0 initial
    step :
        (c : Call) {n : ℕ} {d : Ddc}
        → Reachable n d
        → counted c n < 2 ^ 32
        → Reachable (counted c n) (after c d)

  -- `ref_cnt` is the number of references, and the device is closed when there is none.
  pub record Counts (n : ℕ) (d : Ddc) : Type 0 where
    pub count : d.ref_cnt ≡ n
    pub closed : n ≡ 0 → d.fd ≡ none

  after-Counts :
      (c : Call) (n : ℕ) (d : Ddc)
      → counted c n < 2 ^ 32
      → Counts n d
      → Counts (counted c n) (after c d)
  unfolding after ddc_open ddc_close ddc_read eddc_read ddc_write
  after-Counts opens n d small h = ground arith
  after-Counts closes n d small h = ground arith
  after-Counts (reads a o m) n d small h = ground arith
  after-Counts (segment_reads p s a o m) n d small h = ground arith
  after-Counts (writes a o bs) n d small h = ground arith

  -- After any sequence of calls with fewer than 2 ^ 32 opens at a time that are not closed yet, failed opens included,
  -- `ref_cnt` is the number of these opens, and without one the descriptor is -1.
  pub Reachable-Counts : (n : ℕ) (d : Ddc) → Reachable n d → Counts n d
  Reachable-Counts _ _ start = ground arith
  Reachable-Counts _ _ (step c h small) = after-Counts c _ _ small (Reachable-Counts _ _ h)

  -- The first DDCOpen fails if the device cannot be opened, and the next one, with no close between, succeeds without a device:
  -- no EDDCRead after it reads anything.
  pub ddc_open-after_failure :
      (d : Ddc)
      → d.ref_cnt ≡ 0
      → host.open_device d.clock ≡ none
      → let first = ddc_open host d in
        let second = ddc_open host first.1 in
        (first.0 ≡ false)
        × (second.0 ≡ true)
        × ((p s a o n : ℕ) → (eddc_read host p s a o n second.1).0 ≡ none)
  unfolding ddc_open eddc_read
  ddc_open-after_failure d z h = ground arith
