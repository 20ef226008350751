-- ===== src/Srp/Device.antt =====
-- The statics of srp_api.c, and what is asked of the device.
use exynos.Common.{ℕ, Bool, Option, none, List, [], ◌∷◌, if◌then◌else◌}
use exynos.Common.Int.{ℤ, pos, eqb_ℤ}
use exynos.Common.Act.{Act, ok}

-- `struct srp_buf_info`; the number is the 32-bit word that is read as unsigned.
pub record BufInfo : Type 0 where
  pub mmapped_addr : ℕ
  pub addr : ℕ
  pub mmapped_size : ℕ
  pub size : ℕ
  pub num : ℕ

-- The requests of srp_ioctl.h, and the reads and writes of the device. `write_data` has the address and the size.
pub data Request : Type 0 where
  init get_mmap_size send_eos flush read_pcm get_dec_info get_ibuf_info get_obuf_info deinit :
      Request
  get_control : ℕ → Request
  write_data : ℕ → ℤ → Request

-- What was done, with the answer; a device is named by its descriptor. `opened` has the flag for non-blocking access.
pub data Event : Type 0 where
  opened : Bool → Option ℕ → Event
  asked : ℕ → Request → ℤ → Event
  mapped : ℕ → ℕ → ℕ → Event
  unmapped : ℕ → ℕ → Event
  closed : ℕ → ℤ → Event

-- The system: the result of each call, given what was done before, and what an ioctl or a read leaves in the struct that
-- it is passed.
pub record Host : Type 0 where
  pub open_device : List Event → Bool → Option ℕ
  pub result : List Event → ℕ → Request → ℤ
  pub mmap_size : List Event → ℕ
  pub map_to : List Event → ℕ → ℕ
  pub fill_info : List Event → BufInfo → BufInfo
  pub close_device : List Event → ℕ → ℤ

-- `srp_dev`, where `none` is -1, the other statics, and what was done, the latest first.
pub record Srp : Type 0 where
  pub dev : Option ℕ
  pub block_mode : ℕ
  pub ibuf_info : BufInfo
  pub obuf_info : BufInfo
  pub pcm_info : BufInfo
  pub log : List Event

abbrev pub empty_info : BufInfo
empty_info = record { mmapped_addr = 0; addr = 0; mmapped_size = 0; size = 0; num = 0 }

abbrev pub initial : Srp
initial = record {
  dev = none;
  block_mode = 0;
  ibuf_info = empty_info;
  obuf_info = empty_info;
  pcm_info = empty_info;
  log = [];
}

abbrev pub Step : Type 0 → Type 0
Step A = Act Srp A

abbrev pub log_event : Event → Srp → Srp
log_event e s = record s { log = e ∷ s.log }

unfoldable pub ask : Host → ℕ → Request → Step ℤ
ask host d r s = let v = host.result s.log d r in (ok v, log_event (asked d r v) s)

unfoldable pub map_memory : Host → ℕ → ℕ → Step ℕ
map_memory host d size s = let a = host.map_to s.log size in (ok a, log_event (mapped d size a) s)

-- `srp_dev = open(...)`.
unfoldable pub open_device : Host → Bool → Step (Option ℕ)
open_device host nonblock s =
    let o = host.open_device s.log nonblock in
    (ok o, record (log_event (opened nonblock o) s) { dev = o })

-- `close(srp_dev)`, after which `srp_dev` is -1 if it has succeeded.
unfoldable pub close_device : Host → ℕ → Step ℤ
close_device host d s =
    let v = host.close_device s.log d in
    let s' = log_event (closed d v) s in
    (ok v, if eqb_ℤ v (pos 0) then record s' { dev = none } else s')
