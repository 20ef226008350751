-- ===== src/Ddc/Transfer.antt =====
-- The transfers of libddc.c.
use exynos.Common.{
  ◌⊎◌, inl, inr, Option-cases, ℕ, ◌+◌, ◌<◌, ◌≡◌, false, ◌&&◌, none, some, List, ◌∷◌, ◌==◌, length,
  All, All-tabulate, length-tabulate, ◌>>>◌, u8, arith,
}
use exynos.Ddc.{Ddc, Host, Reply, filled, tick, ddc_read, eddc_read, ddc_write, segment_msgs}

-- Every entry is a byte.
abbrev pub IsBytes : List ℕ → Type 0
IsBytes d = All (λ b. b < 256) d

filled-IsBytes : (n : ℕ) (r : Reply) → IsBytes (filled n r)
unfolding filled
filled-IsBytes n r = All-tabulate (λ b. b < 256) n 0 (λ i. u8 (r.at i)) (λ k. omega arith)

length-filled : (n : ℕ) (r : Reply) → length (filled n r) ≡ n
unfolding filled
length-filled n r = length-tabulate n 0 (λ i. u8 (r.at i))

module _ (host : Host) where
  -- What EDDCRead reads is a buffer of the wanted size.
  pub eddc_read-cases :
      (p q a o n : ℕ) (d : Ddc)
      → let r = eddc_read host p q a o n d in
        (r.0 ≡ none) ⊎ ((b : List ℕ) × (r.0 ≡ some b) × (length b ≡ n) × IsBytes b)
  unfolding eddc_read
  eddc_read-cases p q a o n d = elim (Option-cases d.fd) [
    | inl e ↦ inl (rw (e, eddc_read))
    | inr (fd, e) ↦ elim (Option-cases (host.transfer d.clock fd (segment_msgs p q a o n))) [
      | inl e' ↦ inl (rw (e, eddc_read, e'))
      | inr (r, e') ↦ inr (filled n r, rw (e, eddc_read, e'), length-filled n r, filled-IsBytes n r)
    ]
  ]

  -- DDCWrite succeeds exactly when there is memory, the device is open, the slave address is taken, and the device
  -- takes the offset and all bytes in one write.
  pub ddc_write_lem :
      (addr offset : ℕ) (bytes : List ℕ) (d : Ddc) (fd : ℕ)
      → d.fd ≡ some fd
      → (ddc_write host addr offset bytes d).0 ≡ (
          host.malloc d.clock (length bytes + 1)
          && host.set_slave (d.clock + 1) fd (addr >>> 1)
          && (elim (host.write (d.clock + 1 + 1) fd (offset ∷ bytes)) [
            | none ↦ false
            | some n ↦ n == length bytes + 1
          ]))
  unfolding ddc_write
  ddc_write_lem addr offset bytes d fd h = ground arith

  -- Without a device every transfer fails, and the device is not called.
  pub transfers-closed :
      (p s a o size : ℕ) (bytes : List ℕ) (d : Ddc)
      → d.fd ≡ none
      → (ddc_read host a o size d ≡ (0, none, d))
        × (eddc_read host p s a o size d ≡ (none, d))
        × (ddc_write host a o bytes d ≡ (false, tick d))
  unfolding ddc_read eddc_read ddc_write
  transfers-closed p s a o size bytes d h = ground arith
