-- ===== src/Decoder/Buffers.antt =====
-- The operations on the buffers of a port in ExynosVideoDecoder.c. The functions for the input and for the output are
-- the same text but for the names, and one definition here. The tests for a NULL context are left out, as are the time
-- stamps, which nothing here reads.
use exynos.Common.{
  ℕ, zero, suc, ◌+◌, Bool, true, false, not, ◌&&◌, ◌||◌, Option, none, some, List, [], ◌∷◌, ◌==◌,
  ltb, bit_and, if◌then◌else◌,
}
use exynos.Common.Act.{ok, err, crash, pure, fail, gets, modify, ◌>>=◌, ◌>>◌}
use exynos.Decoder.Driver.{
  Buffer, Data, Env, Field, FrameStatus, FrameType, Op, Plane, Port, PortOp, Reply, Sent, ask,
  change_resol, decoding_only, display_decoding, display_only, display_status, dqbuf, frame_b,
  frame_i, frame_p, others, progressive, qbuf, set_bufs, streamoff, streamon, unknown,
}

-- `MFC_Decoder_Find_Inbuf` and `_Outbuf`, from the index `i` on: the first buffer that is not queued and whose address it
-- is, or any if the address is NULL. `none` is -1.
unfoldable pub find_from : ℕ → ℕ → List Buffer → Option ℕ
find_from addr i [] = none
find_from addr i (b ∷ bs) =
    let later = find_from addr (i + 1) bs in
    if not b.queued && (addr == 0 || b.plane0.addr == addr) then some i else later

unfoldable pub set_at : (Buffer → Buffer) → ℕ → List Buffer → List Buffer
set_at f i [] = []
set_at f zero (b ∷ bs) = f b ∷ bs
set_at f (suc i) (b ∷ bs) = b ∷ set_at f i bs

unfoldable pub in_range : ℕ → List Buffer → Bool
in_range i [] = false
in_range zero (b ∷ bs) = true
in_range (suc i) (b ∷ bs) = in_range i bs

-- A write to `pInbuf[i]` or `pOutbuf[i]`.
unfoldable pub write_at : (Buffer → Buffer) → ℕ → Op
write_at f i p =
    if in_range i p.bufs then (ok tt, record p { bufs = set_at f i p.bufs }) else (crash, p)

abbrev pub mark : Bool → Buffer → Buffer
mark q b = record b { queued = q }

-- The first buffer that is not registered takes the planes; `none` if there is none.
unfoldable pub register_in : (Buffer → Buffer) → List Buffer → Option (List Buffer)
register_in f [] = none
register_in f (b ∷ bs) =
    let later = register_in f bs in
    if not b.registered
    then some (f b ∷ bs)
    else elim later [ none ↦ none | some cs ↦ some (b ∷ cs) ]

-- What is taken over of a plane.
abbrev pub take_plane : Plane → Plane → Plane
take_plane p old = record old { addr = p.addr; alloc_size = p.alloc_size; fd = p.fd }

abbrev pub take_planes : List Plane → Buffer → Buffer
take_planes [] b = record b { registered = true }
take_planes (p ∷ []) b = record b { plane0 = take_plane p b.plane0; registered = true }
take_planes (p ∷ q ∷ ps) b = record b {
  plane0 = take_plane p b.plane0;
  plane1 = take_plane q b.plane1;
  registered = true;
}

abbrev pub plane_count : {A : Type 0} → List A → ℕ
plane_count [] = 0
plane_count (x ∷ xs) = suc (plane_count xs)

unfoldable pub register_planes : Env → List Plane → Op
register_planes env planes p =
    if not (plane_count planes == env.planes)
    then (err, p)
    else elim (register_in (take_planes planes) p.bufs) [
      | none ↦ (err, p)
      | some bs ↦ (ok tt, record p { bufs = bs })
    ]

unfoldable pub each : (Buffer → Buffer) → List Buffer → List Buffer
each f [] = []
each f (b ∷ bs) = f b ∷ each f bs

unfoldable pub clear_registered_buffer : Op
clear_registered_buffer =
    set_bufs (each (λ b. record b { plane0 = record b.plane0 { addr = 0 }; registered = false }))

unfoldable pub clear_queued : Op
clear_queued = set_bufs (each (mark false))

-- The planes of a buffer to be queued, the first `d` and the second if there is one.
abbrev pub sent_plane : Env → Bool → Data → Plane → Sent
sent_plane env shared d p =
    if shared
    then record {
      target = some (if env.use_dma_buf then p.fd else d.addr);
      length = some p.alloc_size;
      bytesused = some d.size;
    }
    else record {
      target = none;
      length = none;
      bytesused = if env.is_input then some d.size else none;
    }

unfoldable pub sent_planes : Env → Bool → Data → List Data → Buffer → List Sent
sent_planes env shared d [] b = sent_plane env shared d b.plane0 ∷ []
sent_planes env shared d (e ∷ es) b =
    sent_plane env shared d b.plane0 ∷ sent_plane env shared e b.plane1 ∷ []

unfoldable pub buffer_at : ℕ → List Buffer → Option Buffer
buffer_at i [] = none
buffer_at zero (b ∷ bs) = some b
buffer_at (suc i) (b ∷ bs) = buffer_at i bs

-- The buffer that has been chosen goes to the driver, and is taken back if the driver refuses it.
unfoldable pub send : Env → ℕ → List Sent → ℕ → Op
send env i planes private = do
  shared ← gets (λ p. p.shared)
  answer ← ask env (qbuf i shared planes)
  elim answer [
    | none ↦ (do write_at (mark false) i; fail)
    | some r ↦ write_at (λ b. record b { private = private }) i
  ]

abbrev pub planes_at : Env → ℕ → Data → List Data → Port → List Sent
planes_at env i d more p = elim (buffer_at i p.bufs) [
  | none ↦ []
  | some b ↦ sent_planes env p.shared d more b
]

-- The arrays `pBuffer` and `dataSize`, of one element at least.
unfoldable pub enqueue : Env → Data → List Data → ℕ → Op
enqueue env d more private = do
  p ← gets (λ p. p)
  if ltb env.planes (suc (plane_count more)) then fail else elim (find_from d.addr 0 p.bufs) [
    | none ↦ fail
    | some i ↦ (do write_at (mark true) i; send env i (planes_at env i d more p) private)
  ]

-- `none` is NULL, and else the result is the buffer with this index.
unfoldable pub dequeue_inbuf : Env → PortOp (Option ℕ)
dequeue_inbuf env = do
  on ← gets (λ p. p.stream_on)
  if not on then pure none else do
    answer ← ask env dqbuf
    elim answer [
      | none ↦ pure none
      | some r ↦ (do write_at (mark false) r.index; pure (some r.index))
    ]

unfoldable pub status_of : ℕ → FrameStatus
status_of zero = decoding_only
status_of (suc zero) = display_decoding
status_of (suc (suc zero)) = display_only
status_of (suc (suc (suc zero))) = change_resol
status_of (suc (suc (suc (suc n)))) = unknown

unfoldable pub frame_type_of : Env → ℕ → FrameType
frame_type_of env flags =
    let f = bit_and flags 56 in
    if f == env.flag_key
    then frame_i
    else if f == env.flag_p
    then frame_p
    else if f == env.flag_b
    then frame_b
    else others

unfoldable pub is_interlaced : Field → Bool
is_interlaced progressive = false
is_interlaced _ = true

-- What the buffer of a decoded frame is told.
abbrev pub shown : Env → Reply → Option Reply → Buffer → Buffer
shown env r told b = record b {
  display_status = status_of (elim told [ none ↦ env.garbage | some v ↦ v.value ]);
  frame_type = frame_type_of env r.flags;
  interlaced = is_interlaced r.field;
  queued = false;
}

-- The value is read even if the driver did not store it.
unfoldable pub dequeue_outbuf : Env → PortOp (Option ℕ)
dequeue_outbuf env = do
  on ← gets (λ p. p.stream_on)
  if not on then pure none else do
    answer ← ask env dqbuf
    elim answer [
      | none ↦ pure none
      | some r ↦ (do
        told ← ask env display_status
        write_at (shown env r told) r.index
        pure (some r.index))
    ]

unfoldable pub run_port : Env → Op
run_port env = do
  on ← gets (λ p. p.stream_on)
  if on then pure tt else do
    answer ← ask env streamon
    elim answer [ none ↦ fail | some r ↦ modify (λ p. record p { stream_on = true }) ]

unfoldable pub stop_port : Env → Op
stop_port env = do
  on ← gets (λ p. p.stream_on)
  if not on then clear_queued else do
    answer ← ask env streamoff
    elim answer [
      | none ↦ fail
      | some r ↦ (do modify (λ p. record p { stream_on = false }); clear_queued)
    ]
