-- ===== src/Decoder/Tests.antt =====
-- Runs of the decoder's buffers, and the theorems at concrete inputs.
use exynos.Common.{
  ◌%◌, arith, ℕ, zero, suc, ◌+◌, ◌≡◌, refl, sym, Bool, true, false, Option, none, some, List, [],
  ◌∷◌, ◌*◌, ◌==◌, if◌then◌else◌,
}
use exynos.Common.Act.{crash, ◌>>=◌}
use exynos.Common.Act.Keeps.{IsSafe}
use exynos.Decoder.Driver.{
  Plane, unknown, frame_i, Buffer, Data, Request, dqbuf, progressive, Reply, Event, Env, Port,
}
use exynos.Decoder.Buffers.{find_from}
use exynos.Decoder.Find.{IsFirstFree, find_from-IsFirstFree}
use exynos.Decoder.Pool.{queued_at}
use exynos.Decoder.Held.{holds, Agrees, PortCall, perform, Reach}
use exynos.Decoder.Setup.{
  no_array, SystemCall, Extent, System, Context, setup, fill, map_all, map_bufs, map_planes, zeroed,
  leave, unmap_bufs, unmap_planes, get_buffer, finalize_port,
}
use exynos.Decoder.Arrays.{Leaves, setup-Leaves}
use exynos.Decoder.Packing.{Fits, FramePacking, get_frame_packing_info, words_of}
use exynos.Decoder.Unpack.{get_frame_packing_info-words_of}
use exynos.Decoder.Agree.{perform-refines}

abbrev plane : ℕ → Plane
plane a = record { addr = a; alloc_size = 4096; data_size = 0; fd = 7 }

abbrev buffer : ℕ → Buffer
buffer a = record {
  plane0 = plane a;
  plane1 = plane (a + 1);
  queued = false;
  registered = true;
  private = 0;
  display_status = unknown;
  frame_type = frame_i;
  interlaced = false;
}

abbrev reply : ℕ → Reply
reply i = record { index = i; flags = 0; field = progressive; value = 1; bytesused = 0 }

-- A driver that gives back buffer 0 as soon as it has it.
abbrev gives_first : List Event → Request → Option Reply
gives_first log dqbuf = if holds 0 log then some (reply 0) else none
gives_first log _ = some (reply 0)

abbrev decoder : Env
decoder = record {
  answer = gives_first;
  use_dma_buf = true;
  flag_key = 8;
  flag_p = 16;
  flag_b = 32;
  garbage = 0;
  is_input = true;
  planes = 1;
}

abbrev port : Port
port = record { bufs = buffer 100 ∷ buffer 200 ∷ []; stream_on = false; shared = true; log = [] }

abbrev data_100 : Data
data_100 = record { addr = 100; size = 10 }

port-Agrees : Agrees port
unfolding holds queued_at
port-Agrees = record { flag = none_queued }
  where
    none_queued : (i : ℕ) → queued_at i port.bufs ≡ holds i port.log
    none_queued zero = refl
    none_queued (suc zero) = refl
    none_queued (suc (suc i)) = refl

given : (log : List Event) (v : Reply) → gives_first log dqbuf ≡ some v → holds v.index log ≡ true
given log v h = go (holds 0 log) refl h
  where
    go :
        (b : Bool)
        → holds 0 log ≡ b
        → (if b then some (reply 0) else none) ≡ some v
        → holds v.index log ≡ true
    go true e h = rw (sym (index_eq h)) e
      where
        index_eq : some (reply 0) ≡ some v → 0 ≡ v.index
        index_eq h = cc h
    go false e h = absurd (cc h)

abbrev running : Port
running =
    (perform decoder PortCall.run_stream
      (perform decoder (PortCall.enqueue_data data_100 [] 5) port).1).1

perform-refines_example :
    IsSafe (perform decoder PortCall.dequeue_in running).0
    × Agrees (perform decoder PortCall.dequeue_in running).1
perform-refines_example =
    perform-refines decoder given port running PortCall.dequeue_in port-Agrees
      (Reach.next PortCall.run_stream _
        (Reach.next (PortCall.enqueue_data data_100 [] 5) port Reach.start tt) tt)
      tt

find_from-IsFirstFree_example : IsFirstFree 200 port.bufs (find_from 200 0 port.bufs)
find_from-IsFirstFree_example = find_from-IsFirstFree 200 port.bufs

abbrev extent : ℕ → Extent
extent j = record { length = 4096; offset = j * 4096 }

-- A system that can map one plane, and no other.
abbrev maps_one : List SystemCall → Extent → ℕ
maps_one log e = if e.offset == 0 then 1000 else 4294967295

abbrev system : System
system = record {
  request = λ log n shared. some n;
  query = λ log i. some extent;
  map_to = maps_one;
  has_memory = λ log n. true;
  map_failed = 4294967295;
  is_input = true;
  planes = 1;
}

abbrev fresh : Context
fresh = record { array = no_array; count = 0; shared = false; log = [] }

setup-Leaves_example : Leaves 2 no_array false (setup system 2 fresh)
setup-Leaves_example = setup-Leaves system 2 fresh (omega arith)

abbrev two_planes : System
two_planes = record system { is_input = false; planes = 2 }

-- After a set-up that failed, a buffer is handed out all the same, and the array is freed once more at the end.
get_buffer_test : get_buffer 1 (setup two_planes 2 fresh).1 ≡ some 1
unfolding setup fill map_all map_bufs map_planes zeroed leave get_buffer unmap_bufs unmap_planes
    ◌>>=◌
get_buffer_test = refl

finalize_port_test : (finalize_port two_planes (setup two_planes 2 fresh).1).0 ≡ crash
unfolding setup fill map_all map_bufs map_planes zeroed leave finalize_port unmap_bufs unmap_planes
    ◌>>=◌
finalize_port_test = refl

abbrev packing : FramePacking
packing = record {
  available = 1;
  arrangement_id = 9;
  arrangement_cancel_flag = 0;
  arrangement_type = 67;
  quincunx_sampling_flag = 1;
  content_interpretation_type = 2;
  spatial_flipping_flag = 0;
  frame0_flipped_flag = 1;
  field_views_flag = 0;
  current_frame_is_frame0_flag = 1;
  frame0_grid_pos_x = 3;
  frame0_grid_pos_y = 0;
  frame1_grid_pos_x = 15;
  frame1_grid_pos_y = 8;
}

packing-Fits : Fits packing
packing-Fits = record {
  cancel = omega arith;
  type = omega arith;
  quincunx = omega arith;
  content = omega arith;
  spatial = omega arith;
  flipped = omega arith;
  views = omega arith;
  current = omega arith;
  x0 = omega arith;
  y0 = omega arith;
  x1 = omega arith;
  y1 = omega arith;
}

get_frame_packing_info-words_of_example :
    get_frame_packing_info (some (words_of packing))
    ≡ (none, record packing { arrangement_type = packing.arrangement_type % 64 })
get_frame_packing_info-words_of_example = get_frame_packing_info-words_of packing packing-Fits
