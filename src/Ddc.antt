-- ===== src/Ddc.antt =====
-- libhdmi/libsForhdmi/libddc/libddc.c, built without USES_MHL.
-- The I2C device, malloc and close are the parameter `Host`. Each call of the device is given the
-- number of calls made before it, so it may answer differently every time.
mod Tests
pub mod Refs
pub mod Transfer
use exynos.Common.{
  ℕ, ◌+◌, ◌-◌, ◌%◌, ◌<◌, ◌≡◌, Bool, true, false, Option, none, some, List, [], ◌∷◌, ◌==◌, ltb,
  length, if◌then◌else◌, u8, u32, ◌>>>◌, tabulate,
}

-- The flags of a message that libddc sets: 0, I2C_M_IGNORE_NAK and I2C_M_RD.
pub data MsgFlags : Type 0 where
  plain ignore_nak reads : MsgFlags

-- `struct i2c_msg`. `bytes` is what a write message sends.
pub record I2cMsg : Type 0 where
  pub addr : ℕ
  pub flags : MsgFlags
  pub len : ℕ
  pub bytes : List ℕ

-- A successful ioctl: its value, and what the device puts at each place of the read buffer.
pub record Reply : Type 0 where
  pub ret : ℕ
  pub at : ℕ → ℕ

-- The operating system: `none` is a negative result, `false` a failure.
pub record Host : Type 0 where
  pub open_device : ℕ → Option ℕ
  pub close_device : ℕ → Option ℕ → Bool
  pub transfer : ℕ → ℕ → List I2cMsg → Option Reply
  pub set_slave : ℕ → ℕ → ℕ → Bool
  pub write : ℕ → ℕ → List ℕ → Option ℕ
  pub malloc : ℕ → ℕ → Bool

-- The statics `ddc_fd` (`none` is -1) and `ref_cnt`, an unsigned int, and the number of host calls so far.
pub record Ddc : Type 0 where
  pub fd : Option ℕ
  pub ref_cnt : ℕ
  pub clock : ℕ

abbrev pub initial : Ddc
initial = record { fd = none; ref_cnt = 0; clock = 0 }

-- One more host call has been made.
abbrev pub tick : Ddc → Ddc
tick d = record d { clock = d.clock + 1 }

-- What the device put in a buffer of `size` bytes.
unfoldable pub filled : ℕ → Reply → List ℕ
filled size r = tabulate size 0 (λ i. u8 (r.at i))

-- The messages of DDCRead: set the offset, then read.
unfoldable pub read_msgs : ℕ → ℕ → ℕ → List I2cMsg
read_msgs addr offset size =
    record { addr = addr >>> 1; flags = plain; len = 1; bytes = offset ∷ [] }
    ∷ record { addr = addr >>> 1; flags = reads; len = size; bytes = [] }
    ∷ []

-- The messages of EDDCRead: set the segment, set the offset, then read.
unfoldable pub segment_msgs : ℕ → ℕ → ℕ → ℕ → ℕ → List I2cMsg
segment_msgs segpointer segment addr offset size =
    record {
      addr = segpointer >>> 1;
      flags = if segment == 0 then ignore_nak else plain;
      len = 1;
      bytes = segment ∷ [];
    }
    ∷ record { addr = addr >>> 1; flags = plain; len = 1; bytes = offset ∷ [] }
    ∷ record { addr = addr >>> 1; flags = reads; len = size; bytes = [] }
    ∷ []

module _ (host : Host) where
  unfoldable pub ddc_open : Ddc → Bool × Ddc
  ddc_open d =
      if ltb 0 d.ref_cnt
      then (true, record d { ref_cnt = u32 (d.ref_cnt + 1) })
      else elim (host.open_device d.clock) [
        | none ↦ (false, record (tick d) { fd = none; ref_cnt = u32 (d.ref_cnt + 1) })
        | some n ↦ (true, record (tick d) { fd = some n; ref_cnt = u32 (d.ref_cnt + 1) })
      ]

  unfoldable pub ddc_close : Ddc → Bool × Ddc
  ddc_close d =
      if d.ref_cnt == 0
      then (true, d)
      else if ltb 1 d.ref_cnt
      then (true, record d { ref_cnt = d.ref_cnt - 1 })
      else (host.close_device d.clock d.fd, record (tick d) { ref_cnt = d.ref_cnt - 1; fd = none })

  -- The value of the function, the buffer if it was filled, and the new state.
  unfoldable pub ddc_read : ℕ → ℕ → ℕ → Ddc → ℕ × Option (List ℕ) × Ddc
  unfolding filled
  ddc_read addr offset size d = elim d.fd [
    | none ↦ (0, none, d)
    | some fd ↦ elim (host.transfer d.clock fd (read_msgs addr offset size)) [
      | none ↦ (0, none, tick d)
      | some r ↦ (r.ret, some (filled size r), tick d)
    ]
  ]

  -- `some` buffer where the function returns 1, `none` where it returns 0.
  unfoldable pub eddc_read : ℕ → ℕ → ℕ → ℕ → ℕ → Ddc → Option (List ℕ) × Ddc
  unfolding filled
  eddc_read segpointer segment addr offset size d = elim d.fd [
    | none ↦ (none, d)
    | some fd ↦ elim (host.transfer d.clock fd (segment_msgs segpointer segment addr offset size)) [
      | none ↦ (none, tick d)
      | some r ↦ (some (filled size r), tick d)
    ]
  ]

  -- Write `bytes`, of which there are `size`, behind the offset; the buffer of `size + 1` bytes is
  -- allocated first and the descriptor is tested after that.
  unfoldable pub ddc_write : ℕ → ℕ → List ℕ → Ddc → Bool × Ddc
  ddc_write addr offset bytes d =
      let d1 = tick d in
      let d2 = tick d1 in
      if host.malloc d.clock (length bytes + 1)
      then elim d.fd [
        | none ↦ (false, d1)
        | some fd ↦
            if host.set_slave d1.clock fd (addr >>> 1)
            then elim (host.write d2.clock fd (offset ∷ bytes)) [
              | none ↦ (false, tick d2)
              | some n ↦ (n == length bytes + 1, tick d2)
            ]
            else (false, d2)
      ]
      else (false, d1)
