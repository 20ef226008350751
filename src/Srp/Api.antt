-- ===== src/Srp/Api.antt =====
-- The functions of srp_api.c.
use exynos.Common.{ℕ, zero, suc, ◌==◌, Bool, not, Option, none, some, if◌then◌else◌}
use exynos.Common.Int.{ℤ, pos, negsuc, eqb_ℤ, ltb_ℤ}
use exynos.Common.Act.{pure, gets, modify, ◌>>=◌, ◌>>◌}
use exynos.Srp.Device.{
  BufInfo, Host, Request, Step, init, get_mmap_size, send_eos, flush, read_pcm, get_dec_info,
  get_ibuf_info, get_obuf_info, deinit, get_control, write_data, unmapped, ask, map_memory,
  open_device, close_device, log_event,
}

-- The value of a function, and what it writes to the variables `addr`, `size` and `num` of its caller.
pub record Ret : Type 0 where
  pub value : ℤ
  pub addr : Option ℕ
  pub size : Option ℕ
  pub num : Option ℕ

abbrev pub plain : ℤ → Ret
plain v = record { value = v; addr = none; size = none; num = none }

-- SRP_ERRORTYPE; `negsuc n` is -(n + 1).
abbrev pub open_fail : ℤ
open_fail = negsuc 999

abbrev pub already_open : ℤ
already_open = negsuc 1000

abbrev pub not_ready : ℤ
not_ready = negsuc 1001

abbrev pub ibuf_info_error : ℤ
ibuf_info_error = negsuc 2000

abbrev pub obuf_read : ℤ
obuf_read = negsuc 2999

abbrev pub obuf_info_error : ℤ
obuf_info_error = negsuc 3000

abbrev pub obuf_mmap : ℤ
obuf_mmap = negsuc 3001

abbrev pub invalid_setting : ℤ
invalid_setting = negsuc 3999

abbrev pub getinfo_fail : ℤ
getinfo_fail = negsuc 4000

abbrev pub is_negative : ℤ → Bool
is_negative v = ltb_ℤ v (pos 0)

-- The test `srp_dev != -1`.
abbrev pub when_open : (ℕ → Step Ret) → Step Ret
when_open body = do
  dev ← gets (λ s. s.dev)
  elim dev [ none ↦ pure (plain not_ready) | some d ↦ body d ]

abbrev pub set_obuf : (BufInfo → BufInfo) → Step (Unit {0})
set_obuf f = modify (λ s. record s { obuf_info = f s.obuf_info })

-- The result of `open`, which is taken as a failure if it is 0.
abbrev pub created : Option ℕ → ℤ
created none = open_fail
created (some zero) = open_fail
created (some (suc n)) = pos (suc n)

module _ (host : Host) where
  unfoldable pub srp_create : ℕ → Step Ret
  srp_create mode = do
    dev ← gets (λ s. s.dev)
    elim dev [
      | some d ↦ pure (plain already_open)
      | none ↦ (do
        modify (λ s. record s { block_mode = mode })
        o ← open_device host (mode == 1)
        pure (plain (created o)))
    ]

  unfoldable pub srp_init : Step Ret
  srp_init = when_open λ d. do
    r ← ask host d init
    if is_negative r then pure (plain r) else do
      q ← ask host d get_mmap_size
      if is_negative q then pure (plain obuf_mmap) else do
        size ← gets (λ s. host.mmap_size s.log)
        a ← map_memory host d size
        set_obuf (λ i. record i { mmapped_addr = a })
        if a == 0
            then pure (plain obuf_mmap)
            else do set_obuf (λ i. record i { mmapped_size = size }); pure (plain (pos 0))

  unfoldable pub srp_decode : ℕ → ℤ → Step Ret
  srp_decode buff size_byte = when_open λ d.
      if ltb_ℤ (pos 0) size_byte
      then (do r ← ask host d (write_data buff size_byte); pure (plain r))
      else pure (plain (pos 0))

  -- An ioctl whose value is returned as it is.
  abbrev pub pass_on : Request → Step Ret
  pass_on request = when_open λ d. do r ← ask host d request; pure (plain r)

  unfoldable pub srp_send_eos : Step Ret
  srp_send_eos = pass_on send_eos

  unfoldable pub srp_set_params : Step Ret
  srp_set_params = when_open λ d. pure (plain (pos 0))

  unfoldable pub srp_get_params : ℕ → Step Ret
  srp_get_params id = pass_on (get_control id)

  unfoldable pub srp_flush : Step Ret
  srp_flush = pass_on flush

  unfoldable pub srp_get_pcm : Step Ret
  srp_get_pcm = when_open λ d. do
    r ← ask host d read_pcm
    modify (λ s. record s { pcm_info = host.fill_info s.log s.pcm_info })
    i ← gets (λ s. s.pcm_info)
    pure (
        if eqb_ℤ r (negsuc 0)
        then record (plain obuf_read) { size = some 0 }
        else record (plain r) { addr = some i.addr; size = some i.size })

  unfoldable pub srp_get_dec_info : Step Ret
  srp_get_dec_info = when_open λ d. do
    r ← ask host d get_dec_info
    pure (plain (if is_negative r then getinfo_fail else pos 0))

  -- What the two functions on buffers tell.
  abbrev pub tell : BufInfo → Ret
  tell i = record {
    value = if i.num == 0 then invalid_setting else pos 0;
    addr = some i.addr;
    size = some i.size;
    num = some i.num;
  }

  unfoldable pub srp_get_ibuf_info : Step Ret
  srp_get_ibuf_info = when_open λ d. do
    r ← ask host d get_ibuf_info
    modify (λ s. record s { ibuf_info = host.fill_info s.log s.ibuf_info })
    i ← gets (λ s. s.ibuf_info)
    pure (if eqb_ℤ r (negsuc 0) then plain ibuf_info_error else tell i)

  unfoldable pub srp_get_obuf_info : Step Ret
  srp_get_obuf_info = when_open λ d. do
    i ← gets (λ s. s.obuf_info)
    if not (i.addr == 0) then pure (tell i) else do
      r ← ask host d get_obuf_info
      modify (λ s. record s { obuf_info = host.fill_info s.log s.obuf_info })
      j ← gets (λ s. s.obuf_info)
      pure (if is_negative r then plain obuf_info_error else tell j)

  unfoldable pub srp_deinit : Step Ret
  srp_deinit = when_open λ d. do
    modify (λ s. log_event (unmapped s.obuf_info.mmapped_addr s.obuf_info.mmapped_size) s)
    r ← ask host d deinit
    pure (plain r)

  unfoldable pub srp_terminate : Step Ret
  srp_terminate =
      when_open
        λ d. do r ← close_device host d; pure (plain (if eqb_ℤ r (pos 0) then pos 0 else not_ready))

  unfoldable pub srp_is_open : Step Ret
  srp_is_open = do
    dev ← gets (λ s. s.dev)
    pure (plain (elim dev [ none ↦ pos 0 | some d ↦ pos 1 ]))
