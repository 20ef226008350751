-- ===== src/Srp/Tests.antt =====
-- Runs of the audio client, and the theorem at a concrete sequence of calls.
use exynos.Common.{ℕ, ◌≡◌, refl, some, [], ◌∷◌}
use exynos.Common.Int.{pos, negsuc}
use exynos.Common.Act.{ok, ◌>>=◌}
use exynos.Srp.Device.{Host, Srp, ask, map_memory, close_device, initial, open_device}
use exynos.Srp.Api.{
  plain, srp_decode, srp_deinit, srp_init, open_fail, srp_create, srp_get_obuf_info, srp_is_open,
  srp_terminate,
}
use exynos.Srp.Orderly.{
  Tracks, Orderly, holder, run_audio, all_closed, perform, create, decode, init_device, get_obuf,
  deinit_device, terminate, is_open,
}
use exynos.Srp.Calls.{run_audio-Tracks}

-- A system that opens the descriptor `fd` and does what it is asked.
abbrev host : ℕ → Host
host fd = record {
  open_device = λ log nonblock. some fd;
  result = λ log d r. pos 0;
  mmap_size = λ log. 4096;
  map_to = λ log size. 65536;
  fill_info = λ log i. record i { addr = 65536; size = 2048; num = 2 };
  close_device = λ log d. pos 0;
}

initial-Tracks : Tracks initial
unfolding Orderly holder
initial-Tracks = record { orderly = tt; dev = refl }

run_audio-Tracks_example : Tracks (
    run_audio
      (host 5)
      (create 1
        ∷ create 0
        ∷ init_device
        ∷ decode 100 (pos 64)
        ∷ get_obuf
        ∷ deinit_device
        ∷ terminate
        ∷ decode 100 (pos 64)
        ∷ create 0
        ∷ is_open
        ∷ [])
      initial)
unfolding all_closed run_audio perform srp_is_open ◌>>=◌ srp_create srp_decode srp_terminate
    srp_deinit srp_get_obuf_info srp_init open_device ask map_memory close_device
run_audio-Tracks_example =
    run_audio-Tracks (host 5)
      (create 1
        ∷ create 0
        ∷ init_device
        ∷ decode 100 (pos 64)
        ∷ get_obuf
        ∷ deinit_device
        ∷ terminate
        ∷ decode 100 (pos 64)
        ∷ create 0
        ∷ is_open
        ∷ [])
      initial initial-Tracks refl

-- A device with the descriptor 0 is opened, and SRP_Create reports a failure.
create_test :
    ((srp_create (host 0) 0 initial).0 ≡ ok (plain open_fail))
    × ((srp_is_open (host 0) (srp_create (host 0) 0 initial).1).0 ≡ ok (plain (pos 1)))
unfolding srp_create srp_is_open open_device ◌>>=◌
create_test = (refl, refl)

abbrev broken : Host
broken = record (host 5) { result = λ log d r. negsuc 0; fill_info = λ log i. i }

abbrev asked_before : Srp
asked_before = (srp_get_obuf_info (host 5) (srp_create (host 5) 0 initial).1).1

abbrev new_device : Srp
new_device = (srp_create broken 0 (srp_terminate (host 5) asked_before).1).1

-- A new device is not asked for its output buffers: what the old one has told is passed on.
get_obuf_info_test :
    (srp_get_obuf_info broken new_device).0
    ≡ ok (record { value = pos 0; addr = some 65536; size = some 2048; num = some 2 })
unfolding srp_create srp_terminate srp_get_obuf_info open_device close_device ask ◌>>=◌
get_obuf_info_test = refl
