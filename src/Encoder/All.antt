-- ===== src/Encoder/All.antt =====
-- MFC_Encoder_Enqueue_All_Outbuf of ExynosVideoEncoder.c queues every buffer.
use exynos.Common.{
  ℕ, zero, suc, ◌≡◌, refl, sym, ap, ◌∙◌, Bool, true, Option, none, some, List, [], ltb,
  if◌then◌else◌, arith, ◌-◌, lt→ltb, le→ltb,
}
use exynos.Common.Act.{crash, Result, Act, ok, err, fail, continue, ◌>>=◌, ◌>>◌}
use exynos.Decoder.Driver.{Env, Event, Port, Reply, Sent, qbuf, ask, logged, Op}
use exynos.Decoder.Buffers.{
  enqueue, find_from, in_range, mark, plane_count, planes_at, send, set_at, write_at,
}
use exynos.Decoder.Pool.{in_range-set_at}
use exynos.Decoder.Held.{write-ok, Agrees, Safely, holds}
use exynos.Decoder.Agree.{enqueue-Agrees}
use exynos.Encoder.Free.{
  free_count, Found, find-Found, free_count-keep, free_count-le, ltb-suc, all_queued,
}
use exynos.Encoder.Buffers.{enqueue_all_outbuf, enqueue_outbuf, enqueue_times, no_data, outbuf}

-- The driver takes every buffer.
abbrev pub Accepts : Env → Type 0
Accepts env =
    (log : List Event) (i : ℕ) (own : Bool) (planes : List Sent)
    → (v : Reply) × (env.answer log (qbuf i own planes) ≡ some v)

-- What queueing one more buffer does, when `n` are free.
record Queues (n size : ℕ) (out : Result (Unit {0}) × Port) : Type 0 where
  result : out.0 ≡ ok tt
  free : free_count out.1.bufs ≡ n
  count : plane_count out.1.bufs ≡ size

module _ (env : Env) (accepts : Accepts env) where
  send-Queues :
      (i n : ℕ) (planes : List Sent) (p : Port)
      → in_range i p.bufs ≡ true
      → free_count p.bufs ≡ n
      → Queues n (plane_count p.bufs) (send (outbuf env) i planes 0 p)
  unfolding send ◌>>=◌ ask
  send-Queues i n planes p range e =
      let request = qbuf i p.shared planes in
      let (v, answered) = accepts p.log i p.shared planes in
      let q = logged request (env.answer p.log request) p in
      let (f, c) = free_count-keep (λ b. record b { private = 0 }) i p.bufs (λ b. refl) in
      rw (answered, write-ok (λ b. record b { private = 0 }) i (logged request (some v) p) range)
        (record { result = refl; free = f ∙ e; count = c })

  -- What the round does with the buffer that the search gives.
  found_round : Port → Option ℕ → Act Port (Unit {0})
  found_round p none = fail
  found_round p (some i) = do
    write_at (mark true) i
    send (outbuf env) i (planes_at (outbuf env) i no_data [] p) 0

  round_lem :
      (p : Port) → enqueue_outbuf env no_data [] 0 p ≡ found_round p (find_from 0 0 p.bufs) p
  unfolding enqueue_outbuf enqueue ◌>>=◌ found_round
  round_lem p = go (find_from 0 0 p.bufs)
    where
      go :
          (o : Option ℕ)
          → (let m : Act Port (Unit {0}) = elim o [
            | none ↦ fail
            | some i ↦ (do
              write_at (mark true) i
              send (outbuf env) i (planes_at (outbuf env) i no_data [] p) 0)
          ] in
                m)
              p
            ≡ found_round p o p
      go none = refl
      go (some i) = refl

  one-Queues :
      (n : ℕ) (p : Port)
      → free_count p.bufs ≡ suc n
      → Queues n (plane_count p.bufs) (enqueue_outbuf env no_data [] 0 p)
  unfolding found_round ◌>>=◌
  one-Queues n p e = rw (round_lem p) (go (find_from 0 0 p.bufs) (find-Found p.bufs))
    where
      go : (o : Option ℕ) → Found p.bufs o → Queues n (plane_count p.bufs) (found_round p o p)
      go none h = absurd (omega (arith, h, e))
      go (some i) (range, fewer, same) =
          let q = record p { bufs = set_at (mark true) i p.bufs } in
          let left : free_count q.bufs ≡ n = omega (arith, fewer, e) in
          let sent =
            send-Queues i n (planes_at (outbuf env) i no_data [] p) q
              (in_range-set_at (mark true) i i p.bufs ∙ range) left in
          rw (write-ok (mark true) i p range)
            (record { result = sent.result; free = sent.free; count = sent.count ∙ same })

  none-left : (p : Port) → free_count p.bufs ≡ 0 → enqueue_outbuf env no_data [] 0 p ≡ (err, p)
  unfolding found_round
  none-left p e = rw (round_lem p) (go (find_from 0 0 p.bufs) (find-Found p.bufs))
    where
      go : (o : Option ℕ) → Found p.bufs o → found_round p o p ≡ (err, p)
      go none h = refl
      go (some i) (range, fewer, same) = absurd (omega (arith, fewer, e))

  -- After `rounds` rounds with `n` buffers free: as many are left, or one was missing.
  AllQueued : ℕ → ℕ → ℕ → Result (Unit {0}) × Port → Type 0
  AllQueued size rounds n out =
      (out.0 ≡ (if ltb n rounds then err else ok tt))
      × (free_count out.1.bufs ≡ n - rounds)
      × (plane_count out.1.bufs ≡ size)

  continued :
      (n rounds size : ℕ) (out : Result (Unit {0}) × Port)
      → Queues n size out
      → AllQueued size (suc rounds) (suc n) (enqueue_times env rounds out.1)
      → AllQueued size (suc rounds) (suc n) (continue out.0 (λ _. enqueue_times env rounds) out.1)
  continued n rounds size out q h = rw q.result h

  times-AllQueued :
      (rounds n : ℕ) (p : Port)
      → free_count p.bufs ≡ n
      → AllQueued (plane_count p.bufs) rounds n (enqueue_times env rounds p)
  unfolding enqueue_times ◌>>=◌ AllQueued
  times-AllQueued zero n p e = (rw (le→ltb n 0 (omega arith)) refl, omega (arith, e), refl)
  times-AllQueued (suc rounds) zero p e =
      rw (none-left p e) (rw (lt→ltb 0 (suc rounds) (omega arith)) refl, omega (arith, e), refl)
  times-AllQueued (suc rounds) (suc n) p e =
      let one = one-Queues n p e in
      let out = enqueue_outbuf env no_data [] 0 p in
      let (r, left, size) = times-AllQueued rounds n out.1 one.free in
      continued n rounds (plane_count p.bufs) out one
        (rw (ltb-suc n rounds) r, omega (arith, left), size ∙ one.count)

  round-Agrees : (p : Port) → Agrees p → Safely (enqueue_outbuf env no_data [] 0 p)
  unfolding enqueue_outbuf
  round-Agrees p a = enqueue-Agrees (outbuf env) no_data [] 0 p a

  goes_on :
      (m : Op) (r : Result (Unit {0})) (q : Port)
      → ((p : Port) → Agrees p → Safely (m p))
      → Safely (r, q)
      → Safely (continue r (λ _. m) q)
  goes_on m (ok u) q k h = k q h.1
  goes_on m err q k h = h
  goes_on m crash q k h = h

  -- The flags say what the driver holds after each round.
  times-Agrees : (rounds : ℕ) (p : Port) → Agrees p → Safely (enqueue_times env rounds p)
  unfolding enqueue_times ◌>>=◌
  times-Agrees zero p a = (tt, a)
  times-Agrees (suc rounds) p a =
      let one = enqueue_outbuf env no_data [] 0 p in
      goes_on (enqueue_times env rounds) one.0 one.1 (times-Agrees rounds) (round-Agrees p a)

-- If the driver takes every buffer, and the flags say which buffers it holds, then after MFC_Encoder_Enqueue_All_Outbuf
-- the driver holds every buffer of the port according to the log, and no other, and the function succeeds exactly if
-- no buffer was queued before.
pub enqueue_all_outbuf-queues :
    (env : Env) (p : Port)
    → Accepts env
    → Agrees p
    → ((i : ℕ) → holds i (enqueue_all_outbuf env p).1.log ≡ ltb i (plane_count p.bufs))
      × ((enqueue_all_outbuf env p).0
          ≡ (if ltb (free_count p.bufs) (plane_count p.bufs) then err else ok tt))
unfolding enqueue_all_outbuf AllQueued
enqueue_all_outbuf-queues env p accepts agrees =
    let out = enqueue_times env (plane_count p.bufs) p in
    let (r, left, size) =
      times-AllQueued env accepts (plane_count p.bufs) (free_count p.bufs) p refl in
    let none_free : free_count out.1.bufs ≡ 0 = omega (arith, left, free_count-le p.bufs) in
    let after = (times-Agrees env accepts (plane_count p.bufs) p agrees).1 in
    (λ i. sym (after.flag i) ∙ all_queued out.1.bufs i none_free ∙ ap (ltb i) size, r)
