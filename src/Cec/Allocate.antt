-- ===== src/Cec/Allocate.antt =====
-- CECAllocLogicalAddress: which address it gives.
use exynos.Common.{
  ℕ, ◌≡◌, ◌≢◌, ◌∙◌, refl, ◌⊎◌, inl, inr, Bool, true, false, Option, some, List, [], ◌∷◌, ◌==◌, ◌&&◌,
  ◌||◌, if◌then◌else◌, u8, bit_or, ◌<<<◌, arith, Bool-cases,
}
use exynos.Cec.{
  Cec, Driver, DeviceType, type_index, Laddr, laddresses, unregistered, not_valid_physical_address,
  sent, tick, cec_send_message, cec_set_logical_addr, poll_loop, register,
  cec_alloc_logical_address, report_frame,
}

-- `a` is one of the addresses of the type in the table.
abbrev pub is_address_of : List Laddr → DeviceType → ℕ → Bool
is_address_of [] t a = false
is_address_of (e ∷ es) t a =
    type_index e.devtype == type_index t && e.laddr == a || is_address_of es t a

-- The first address of the type that is not taken, and 15 if there is none.
abbrev pub first_free : (ℕ → Bool) → List Laddr → DeviceType → ℕ
first_free taken [] t = unregistered
first_free taken (e ∷ es) t =
    if type_index e.devtype == type_index t
    then if taken e.laddr then first_free taken es t else e.laddr
    else first_free taken es t

-- The byte that polls an address.
abbrev pub poll_byte : ℕ → ℕ
poll_byte a = u8 (bit_or (a <<< 4) a)

module _ (driver : Driver) where
  poll_loop-cases :
      (es : List Laddr) (t : DeviceType) (c : Cec)
      → let a = (poll_loop driver es t c).0 in (a == unregistered || is_address_of es t a) ≡ true
  unfolding poll_loop
  poll_loop-cases [] t c = refl
  poll_loop-cases (e ∷ es) t c = ground (
    arith,
    poll_loop-cases es t c,
    poll_loop-cases es t (cec_send_message driver (poll_byte e.laddr ∷ []) c).1,
  )

  register-cases :
      (a paddr : ℕ) (t : DeviceType) (c : Cec)
      → ((register driver a paddr t c).0 ≡ 0) ⊎ ((register driver a paddr t c).0 ≡ a)
  unfolding register cec_set_logical_addr
  register-cases a paddr t c = ground arith

  -- The function gives 0, 15, or what the polling found.
  given :
      (paddr : ℕ) (t : DeviceType) (c : Cec)
      → let a = (cec_alloc_logical_address driver paddr t c).0 in
        (a ≡ 0) ⊎ ((a ≡ unregistered) ⊎ (a ≡ (poll_loop driver laddresses t (tick c)).0))
  unfolding cec_alloc_logical_address cec_set_logical_addr
  given paddr t c =
      let p = poll_loop driver laddresses t (tick c) in
      ground (arith, register-cases p.0 paddr t p.1)

  -- CECAllocLogicalAddress returns 0, 15, or an address that the table has for the type.
  pub cec_alloc_logical_address-cases :
      (paddr : ℕ) (t : DeviceType) (c : Cec)
      → let a = (cec_alloc_logical_address driver paddr t c).0 in
        (a == 0 || (a == unregistered || is_address_of laddresses t a)) ≡ true
  cec_alloc_logical_address-cases paddr t c =
      allowed _ (given paddr t c) (poll_loop-cases laddresses t (tick c))
    where
      allowed :
          (p : ℕ)
          → {a : ℕ} → (a ≡ 0) ⊎ ((a ≡ unregistered) ⊎ (a ≡ p))
          → (p == unregistered || is_address_of laddresses t p) ≡ true
          → (a == 0 || (a == unregistered || is_address_of laddresses t a)) ≡ true
      allowed p (inl e) h = rw e refl
      allowed p (inr (inl e)) h = rw e refl
      allowed p {a} (inr (inr e)) h = elim (Bool-cases (a == 0)) [
        | inl z ↦ rw z refl
        | inr z ↦ rw (z, e) h
      ]

  -- The bus answers a poll in the same way at all times: `taken` are the addresses that another device has.
  abbrev pub Answers : ℕ → (ℕ → Bool) → Type 0
  Answers fd taken = (clock a : ℕ) → sent (driver.write clock fd (poll_byte a ∷ [])) 1 ≡ taken a

  poll_loop-first_free :
      (fd : ℕ) (taken : ℕ → Bool)
      → Answers fd taken
      → (es : List Laddr) (t : DeviceType) (c : Cec) → c.fd ≡ some fd
      → ((poll_loop driver es t c).0 ≡ first_free taken es t)
        × ((poll_loop driver es t c).1.fd ≡ some fd)
  unfolding poll_loop cec_send_message
  poll_loop-first_free fd taken h [] t c e = (refl, e)
  poll_loop-first_free fd taken h (x ∷ es) t c e = ground (
    arith,
    h c.clock x.laddr,
    poll_loop-first_free fd taken h es t c e,
    poll_loop-first_free fd taken h es t (tick c) e,
  )

  register_taken :
      (fd a paddr : ℕ) (t : DeviceType) (c : Cec)
      → c.fd ≡ some fd
      → ((clock a : ℕ) → sent (driver.write clock fd (report_frame a paddr t)) 5 ≡ true)
      → (register driver a paddr t c).0 ≡ a
  unfolding register cec_set_logical_addr cec_send_message report_frame
  register_taken fd a paddr t c e ok = ground (arith, ok (tick c).clock a)

  -- The function on an open device, with a physical address.
  found :
      (fd paddr : ℕ) (t : DeviceType) (c : Cec)
      → c.fd ≡ some fd
      → paddr ≢ not_valid_physical_address
      → let p = poll_loop driver laddresses t (tick c) in
        (cec_alloc_logical_address driver paddr t c).0
        ≡ (if p.0 == unregistered then unregistered else (register driver p.0 paddr t p.1).0)
  unfolding cec_alloc_logical_address cec_set_logical_addr
  found fd paddr t c e p = ground arith

  -- On an open device, with a physical address, a bus that answers polls the same way at all times and takes the
  -- report frame, CECAllocLogicalAddress returns the first address of the type that no other device has.
  pub cec_alloc_logical_address-first_free :
      (fd : ℕ) (taken : ℕ → Bool) (paddr : ℕ) (t : DeviceType) (c : Cec)
      → Answers fd taken
      → c.fd ≡ some fd
      → paddr ≢ not_valid_physical_address
      → ((clock a : ℕ) → sent (driver.write clock fd (report_frame a paddr t)) 5 ≡ true)
      → (cec_alloc_logical_address driver paddr t c).0 ≡ first_free taken laddresses t
  cec_alloc_logical_address-first_free fd taken paddr t c h e p ok =
      let polled = poll_loop-first_free fd taken h laddresses t (tick c) e in
      let r = poll_loop driver laddresses t (tick c) in
      found fd paddr t c e p
      ∙ settled r.0 (register_taken fd r.0 paddr t r.1 polled.1 ok)
      ∙ polled.0
    where
      settled : (a : ℕ) {b : ℕ} → b ≡ a → (if a == unregistered then unregistered else b) ≡ a
      settled a h = ground arith

-- A driver with another answer to CEC_IOC_SETLADDR.
abbrev pub with_set_laddr : Driver → (ℕ → Option ℕ → ℕ → Bool) → Driver
with_set_laddr driver f = record driver { set_laddr = f }

poll_loop-set_laddr :
    (driver : Driver) (f : ℕ → Option ℕ → ℕ → Bool) (es : List Laddr) (t : DeviceType) (c : Cec)
    → poll_loop (with_set_laddr driver f) es t c ≡ poll_loop driver es t c
unfolding poll_loop cec_send_message
poll_loop-set_laddr driver f [] t c = refl
poll_loop-set_laddr driver f (e ∷ es) t c =
    ground (arith, poll_loop-set_laddr driver f es t c, poll_loop-set_laddr driver f es t (tick c))

-- CECAllocLogicalAddress does the same whatever the driver answers when the logical address is set.
pub cec_alloc_logical_address-set_laddr :
    (driver : Driver) (f : ℕ → Option ℕ → ℕ → Bool) (paddr : ℕ) (t : DeviceType) (c : Cec)
    → cec_alloc_logical_address (with_set_laddr driver f) paddr t c
      ≡ cec_alloc_logical_address driver paddr t c
unfolding cec_alloc_logical_address register cec_set_logical_addr cec_send_message
cec_alloc_logical_address-set_laddr driver f paddr t c =
    ground (arith, poll_loop-set_laddr driver f laddresses t (tick c))
