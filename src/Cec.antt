-- ===== src/Cec.antt =====
-- libhdmi/libsForhdmi/libcec/libcec.c: the CEC device, logical addresses and message checks.
-- The device driver is the parameter `Driver`; a call is given the number of calls made before it.
mod Tests
pub mod Allocate
pub mod Messages
use exynos.Common.{
  ℕ, ◌+◌, ◌*◌, ◌/◌, bit_and, bit_or, Bool, true, false, not, ◌&&◌, ◌||◌, Option, none, some, List,
  [], ◌∷◌, length, ◌==◌, ltb, leb, if◌then◌else◌, u8, ◌<<<◌, ◌>>>◌,
}

-- `enum CECDeviceType`.
pub data DeviceType : Type 0 where
  tv recoder tuner player audio : DeviceType

abbrev pub type_index : DeviceType → ℕ
type_index tv = 0
type_index recoder = 1
type_index tuner = 2
type_index player = 3
type_index audio = 4

-- A row of `laddresses`.
pub record Laddr : Type 0 where
  pub devtype : DeviceType
  pub laddr : ℕ

abbrev entry : DeviceType → ℕ → Laddr
entry t a = record { devtype = t; laddr = a }

unfoldable pub laddresses : List Laddr
laddresses =
    entry recoder 1
    ∷ entry recoder 2
    ∷ entry tuner 3
    ∷ entry player 4
    ∷ entry audio 5
    ∷ entry tuner 6
    ∷ entry tuner 7
    ∷ entry player 8
    ∷ entry recoder 9
    ∷ entry tuner 10
    ∷ entry player 11
    ∷ []

abbrev pub unregistered : ℕ
unregistered = 0x0f

abbrev pub broadcast : ℕ
broadcast = 0x0f

abbrev pub not_valid_physical_address : ℕ
not_valid_physical_address = 0xffff

abbrev pub max_frame_size : ℕ
max_frame_size = 16

-- The driver: `none` is the result -1, `false` a result other than 0.
pub record Driver : Type 0 where
  pub open_device : ℕ → Option ℕ
  pub close_device : ℕ → ℕ → Bool
  pub set_laddr : ℕ → Option ℕ → ℕ → Bool
  pub write : ℕ → ℕ → List ℕ → Option ℕ
  pub select : ℕ → ℕ → ℕ → Option ℕ
  pub read : ℕ → ℕ → ℕ → Option (List ℕ)

-- The static `fd` (`none` is -1), and the number of driver calls so far.
pub record Cec : Type 0 where
  pub fd : Option ℕ
  pub clock : ℕ

abbrev pub tick : Cec → Cec
tick c = record c { clock = c.clock + 1 }

-- `CECSendMessage(…) == size`
abbrev pub sent : Option ℕ → ℕ → Bool
sent r size = elim r [ none ↦ false | some n ↦ n == size ]

-- The frame of "Report Physical Address".
unfoldable pub report_frame : ℕ → ℕ → DeviceType → List ℕ
report_frame laddr paddr devtype =
    u8 (bit_or (laddr <<< 4) broadcast)
    ∷ 0x84
    ∷ bit_and (paddr >>> 8) 0xff
    ∷ bit_and paddr 0xff
    ∷ type_index devtype
    ∷ []

module _ (driver : Driver) where
  unfoldable pub cec_close : Cec → Bool × Cec
  cec_close c = elim c.fd [
    | none ↦ (true, c)
    | some fd ↦ (driver.close_device c.clock fd, record (tick c) { fd = none })
  ]

  -- CECOpen closes a descriptor that is open.
  unfoldable pub cec_open : Cec → Bool × Cec
  unfolding cec_close
  cec_open c =
      let c1 : Cec = elim c.fd [ none ↦ c | some _ ↦ (cec_close c).1 ] in
      elim (driver.open_device c1.clock) [
        | none ↦ (false, record (tick c1) { fd = none })
        | some fd ↦ (true, record (tick c1) { fd = some fd })
      ]

  -- The number of bytes that `write` took, or its -1; 0 if the message is not sent.
  unfoldable pub cec_send_message : List ℕ → Cec → Option ℕ × Cec
  cec_send_message buffer c = elim c.fd [
    | none ↦ (some 0, c)
    | some fd ↦
        if ltb max_frame_size (length buffer)
        then (some 0, c)
        else (driver.write c.clock fd buffer, tick c)
  ]

  -- The bytes received; `none` is the -1 of `read`.
  unfoldable pub cec_receive_message : ℕ → ℕ → Cec → Option (List ℕ) × Cec
  cec_receive_message size timeout c = elim c.fd [
    | none ↦ (some [], c)
    | some fd ↦ elim (driver.select c.clock fd timeout) [
      | none ↦ (some [], tick c)
      | some ready ↦
          if ready == 0
          then (some [], tick c)
          else (driver.read (tick c).clock fd size, tick (tick c))
    ]
  ]

  -- 1, or 0 if the driver refuses the address.
  unfoldable pub cec_set_logical_addr : ℕ → Cec → ℕ × Cec
  cec_set_logical_addr laddr c = (if driver.set_laddr c.clock c.fd laddr then 1 else 0, tick c)

  -- The polling loop: the first address of the type whose poll is not taken.
  unfoldable pub poll_loop : List Laddr → DeviceType → Cec → ℕ × Cec
  unfolding cec_send_message
  poll_loop [] devtype c = (unregistered, c)
  poll_loop (e ∷ es) devtype c =
      let poll = cec_send_message (u8 (bit_or (e.laddr <<< 4) e.laddr) ∷ []) c in
      elim (type_index e.devtype == type_index devtype) [
        | false ↦ poll_loop es devtype c
        | true ↦ elim (sent poll.0 1) [
          | false ↦ (e.laddr, poll.1)
          | true ↦ poll_loop es devtype poll.1
        ]
      ]

  -- The end of CECAllocLogicalAddress: set the address, and report it.
  unfoldable pub register : ℕ → ℕ → DeviceType → Cec → ℕ × Cec
  unfolding cec_set_logical_addr cec_send_message report_frame
  register laddr paddr devtype c =
      let (ok, c1) = cec_set_logical_addr laddr c in
      if ltb ok 0
      then (0, c1)
      else let r = cec_send_message (report_frame laddr paddr devtype) c1 in
        (if sent r.0 5 then laddr else 0, r.1)

  unfoldable pub cec_alloc_logical_address : ℕ → DeviceType → Cec → ℕ × Cec
  cec_alloc_logical_address paddr devtype c = elim c.fd [
    | none ↦ (0, c)
    | some _ ↦
        let (ok, c1) = cec_set_logical_addr unregistered c in
        if ltb ok 0
        then (0, c1)
        else if paddr == not_valid_physical_address
        then (unregistered, c1)
        else let p = poll_loop laddresses devtype c1 in
          if p.0 == unregistered then (unregistered, p.1) else register p.0 paddr devtype p.1
  ]
