-- ===== src/Encoder/Buffers.antt =====
-- The operations on the buffers of a port in ExynosVideoEncoder.c. Most functions are those of ExynosVideoDecoder.c, word
-- for word but for names and messages, with two planes at the input and one at the output.
use exynos.Common.{
  ℕ, zero, suc, Bool, ◌+◌, true, false, not, Option, none, some, List, [], if◌then◌else◌,
}
use exynos.Common.Act.{pure, gets, ◌>>=◌, ◌>>◌}
use exynos.Common.Outcome.{Run}
use exynos.Decoder.Wait.{Polled, ready, other_event, failed, timed_out, wait_buffer}
use exynos.Decoder.Driver.{Buffer, Data, Env, Op, Plane, PortOp, Reply, ask, dqbuf}
use exynos.Decoder.Buffers.{
  clear_queued, clear_registered_buffer, dequeue_inbuf, enqueue, frame_type_of, plane_count,
  register_planes, run_port, stop_port, write_at,
}

abbrev pub inbuf : Env → Env
inbuf env = record env { is_input = true; planes = 2 }

abbrev pub outbuf : Env → Env
outbuf env = record env { is_input = false; planes = 1 }

unfoldable pub register_inbuf : Env → List Plane → Op
register_inbuf env = register_planes (inbuf env)

unfoldable pub register_outbuf : Env → List Plane → Op
register_outbuf env = register_planes (outbuf env)

unfoldable pub clear_registered : Op
clear_registered = clear_registered_buffer

unfoldable pub enqueue_inbuf : Env → Data → List Data → ℕ → Op
enqueue_inbuf env = enqueue (inbuf env)

unfoldable pub enqueue_outbuf : Env → Data → List Data → ℕ → Op
enqueue_outbuf env = enqueue (outbuf env)

unfoldable pub run_buffers : Env → Op
run_buffers = run_port

unfoldable pub stop_buffers : Env → Op
stop_buffers = stop_port

unfoldable pub clear_all_queued : Op
clear_all_queued = clear_queued

unfoldable pub dequeue_source : Env → PortOp (Option ℕ)
dequeue_source = dequeue_inbuf

-- What the buffer of encoded data is told.
abbrev pub filled : Env → Reply → Buffer → Buffer
filled env r b = record b {
  plane0 = record b.plane0 { data_size = r.bytesused };
  frame_type = frame_type_of env r.flags;
  queued = false;
}

-- `none` is NULL, and else the result is the buffer with this index.
unfoldable pub dequeue_encoded : Env → PortOp (Option ℕ)
dequeue_encoded env = do
  on ← gets (λ p. p.stream_on)
  if not on then pure none else do
    answer ← ask env dqbuf
    elim answer [
      | none ↦ pure none
      | some r ↦ (do write_at (filled env r) r.index; pure (some r.index))
    ]

-- The arrays of MFC_Encoder_Enqueue_All_Outbuf.
abbrev pub no_data : Data
no_data = record { addr = 0; size = 0 }

-- The rounds of MFC_Encoder_Enqueue_All_Outbuf that are left.
unfoldable pub enqueue_times : Env → ℕ → Op
enqueue_times env zero = pure tt
enqueue_times env (suc n) = do enqueue_outbuf env no_data [] 0; enqueue_times env n

unfoldable pub enqueue_all_outbuf : Env → Op
enqueue_all_outbuf env p = enqueue_times env (plane_count p.bufs) p

-- MFC_Encoder_Wait_Inbuf has the decoder's loop.
unfoldable pub wait_source : (ℕ → Polled) → ℕ → Run Bool
wait_source = wait_buffer

-- The polls of MFC_Encoder_Wait_Outbuf that are left; a wait that has timed out as often succeeds.
unfoldable pub wait_encoded_from : (ℕ → Polled) → ℕ → ℕ → Bool
wait_encoded_from poll zero i = true
wait_encoded_from poll (suc left) i =
    let later = wait_encoded_from poll left (i + 1) in
    elim (poll i) [ ready ↦ true | other_event ↦ false | failed ↦ false | timed_out ↦ later ]

unfoldable pub wait_encoded : (ℕ → Polled) → Bool
wait_encoded poll = wait_encoded_from poll 5 0
