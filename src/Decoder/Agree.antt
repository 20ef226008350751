-- ===== src/Decoder/Agree.antt =====
-- The flags of the buffers of a port say which buffers the driver holds.
use exynos.Common.{
  ℕ, suc, ◌≡◌, refl, sym, ap, ◌∙◌, Bool, true, false, not, Option, none, some, List, ◌==◌, ltb,
  if◌then◌else◌,
}
use mathlib.Core.Path.{subst}
use exynos.Common.Act.{Result, ok, err, ◌>>=◌}
use exynos.Common.Act.Keeps.{IsSafe}
use exynos.Decoder.Driver.{
  Plane, Buffer, Data, Sent, qbuf, dqbuf, streamon, streamoff, display_status, Reply, Event, Env,
  Port, logged, ask,
}
use exynos.Decoder.Buffers.{
  find_from, set_at, in_range, write_at, mark, register_in, take_planes, plane_count,
  register_planes, clear_queued, send, enqueue, dequeue_inbuf, dequeue_outbuf, shown, run_port,
  stop_port,
}
use exynos.Decoder.Find.{IsFirstFree, find_from-IsFirstFree}
use exynos.Decoder.Pool.{
  same, queued_at, queued_at-range, in_range-set_at, queued_at-set_at, queued_at-keep,
  queued_at-cleared, IsUnflagged, register_in-IsUnflagged, queued_at-buffer,
}
use exynos.Decoder.Held.{
  holds, Agrees, PortCall, register_call, clear_registered, enqueue_data, dequeue_in, dequeue_out,
  run_stream, stop_stream, clear_queue, as_call, perform, IsInOrder, Reach, start, next, write-ok,
  Safely, split-if, split-option, as_call-Safely, free-queued, taken_back, asked,
  clear_registered-Agrees, flag-take,
}

module _ (env : Env) where
  register-Agrees :
      (planes : List Plane) (p : Port) → Agrees p → Safely (register_planes env planes p)
  unfolding register_planes
  register-Agrees planes p a =
      go (plane_count planes == env.planes) (register_in (take_planes planes) p.bufs)
        (register_in-IsUnflagged (take_planes planes) p.bufs (flag-take planes))
    where
      go :
          (ok_count : Bool) (o : Option (List Buffer))
          → IsUnflagged p.bufs o
          → Safely (
              let r : Result (Unit {0}) × Port =
                if not ok_count
                then (err, p)
                else elim o [ none ↦ (err, p) | some bs ↦ (ok tt, record p { bufs = bs }) ] in
              r)
      go false o h = (tt, a)
      go true none h = (tt, a)
      go true (some cs) h = (tt, record { flag = λ i. h i ∙ a.flag i })

  run-Agrees : (p : Port) → Agrees p → Safely (run_port env p)
  unfolding run_port ◌>>=◌ ask holds
  run-Agrees p a =
      split-if p.stream_on _ _ p (λ e. (tt, a))
        (λ e.
          split-option (env.answer p.log streamon) _ _
            (logged streamon (env.answer p.log streamon) p)
            (λ none_eq. (tt, record { flag = λ i. rw none_eq (a.flag i) }))
            (λ r some_eq. (tt, record { flag = λ i. rw some_eq (a.flag i) })))

  stop-Agrees : (p : Port) → p.stream_on ≡ true → Agrees p → Safely (stop_port env p)
  unfolding stop_port clear_queued ◌>>=◌ ask holds
  stop-Agrees p on a =
      split-if (not p.stream_on) _ _ p (λ e. absurd (cc (on, e)))
        (λ e.
          split-option (env.answer p.log streamoff) _ _
            (logged streamoff (env.answer p.log streamoff) p)
            (λ none_eq. (tt, record { flag = λ i. rw none_eq (a.flag i) }))
            (λ r some_eq. (tt, record { flag = λ i. rw some_eq (queued_at-cleared i p.bufs) })))

  clear-Agrees : (p : Port) → ((i : ℕ) → holds i p.log ≡ false) → Agrees p → Safely (clear_queued p)
  unfolding clear_queued
  clear-Agrees p empty a = (tt, record { flag = λ i. queued_at-cleared i p.bufs ∙ sym (empty i) })

  -- The driver gives back a buffer that it holds.
  returned :
      (f : Buffer → Buffer) (j : ℕ) (p : Port) (log : List Event)
      → ((b : Buffer) → (f b).queued ≡ false)
      → ((i : ℕ) → queued_at i p.bufs ≡ holds i log)
      → holds j log ≡ true
      → ((i : ℕ) → holds i p.log ≡ (if same i j then false else holds i log))
      → write_at f j p ≡ (ok tt, record p { bufs = set_at f j p.bufs })
        × ((i : ℕ) → queued_at i (set_at f j p.bufs) ≡ holds i p.log)
  returned f j p log h a held after_log =
      let range = queued_at-range j p.bufs (a j ∙ held) in
      (
        write-ok f j p range,
        λ i.
            queued_at-set_at f false i j p.bufs h range
            ∙ ap (λ q. if same i j then false else q) (a i)
            ∙ sym (after_log i),
      )

  send-Safely :
      (i : ℕ) (planes : List Sent) (private : ℕ) (p : Port)
      → in_range i p.bufs ≡ true
      → holds i p.log ≡ false
      → ((x : ℕ) → queued_at x p.bufs ≡ (if same x i then true else holds x p.log))
      → Safely (send env i planes private p)
  unfolding send ◌>>=◌ ask holds
  send-Safely i planes private p range free flags =
      let request = qbuf i p.shared planes in
      let q = logged request (env.answer p.log request) p in
      split-option (env.answer p.log request) _ _ q
        (λ none_eq. rw (write-ok (mark false) i q range) (
          tt,
          record {
            flag = λ x.
                queued_at-set_at (mark false) false x i p.bufs (λ b. refl) range
                ∙ taken_back x i (queued_at x p.bufs) p.log (flags x) free
                ∙ (rw none_eq refl);
          },
        ))
        (λ r some_eq. rw (write-ok (λ b. record b { private = private }) i q range) (
          tt,
          record {
            flag = λ x. queued_at-keep _ x i p.bufs (λ b. refl) ∙ flags x ∙ (rw some_eq refl);
          },
        ))

  pub enqueue-Agrees :
      (d : Data) (more : List Data) (private : ℕ) (p : Port)
      → Agrees p
      → Safely (enqueue env d more private p)
  unfolding enqueue ◌>>=◌
  enqueue-Agrees d more private p a =
      split-if (ltb env.planes (suc (plane_count more))) _ _ p (λ e. (tt, a))
        (λ e.
          split-option (find_from d.addr 0 p.bufs) _ _ p (λ n. (tt, a))
            (λ i found.
              let first : IsFirstFree d.addr p.bufs (some i) =
                subst (λ o. IsFirstFree d.addr p.bufs o) found
                  (find_from-IsFirstFree d.addr p.bufs) in
              let ((b, at, free), earlier) = first in
              let (flag, range) = queued_at-buffer i p.bufs b at in
              rw (write-ok (mark true) i p range) (
                send-Safely i _ private (record p { bufs = set_at (mark true) i p.bufs })
                  (in_range-set_at (mark true) i i p.bufs ∙ range)
                  (sym (a.flag i) ∙ flag ∙ free-queued d.addr b free)
                  (λ x.
                    queued_at-set_at (mark true) true x i p.bufs (λ c. refl) range
                    ∙ ap (λ q. if same x i then true else q) (a.flag x)))))

  -- A driver that gives back only what it holds.
  module _
      (gives : (log : List Event) (v : Reply)
        → env.answer log dqbuf ≡ some v
        → holds v.index log ≡ true) where
    dequeue_in-Agrees : (p : Port) → Agrees p → Safely (as_call (dequeue_inbuf env) p)
    unfolding dequeue_inbuf ◌>>=◌ ask holds
    dequeue_in-Agrees p a = as_call-Safely (dequeue_inbuf env) p (
        split-if (not p.stream_on) _ _ p (λ e. (tt, a))
          (λ e.
            let q = logged dqbuf (env.answer p.log dqbuf) p in
            split-option (env.answer p.log dqbuf) _ _ q
              (λ none_eq. (tt, record { flag = λ i. rw none_eq (a.flag i) }))
              (λ r some_eq.
                let (written, flags) =
                  returned (mark false) r.index q p.log (λ b. refl) a.flag (gives p.log r some_eq)
                    (λ i. rw some_eq refl) in
                rw written (tt, record { flag = flags }))))

    dequeue_out-Agrees : (p : Port) → Agrees p → Safely (as_call (dequeue_outbuf env) p)
    unfolding dequeue_outbuf ◌>>=◌ ask holds
    dequeue_out-Agrees p a = as_call-Safely (dequeue_outbuf env) p (
        split-if (not p.stream_on) _ _ p (λ e. (tt, a))
          (λ e.
            let q = logged dqbuf (env.answer p.log dqbuf) p in
            split-option (env.answer p.log dqbuf) _ _ q
              (λ none_eq. (tt, record { flag = λ i. rw none_eq (a.flag i) }))
              (λ r some_eq.
                let told = env.answer q.log display_status in
                let (written, flags) =
                  returned (shown env r told) r.index (logged display_status told q) p.log
                    (λ b. refl) a.flag (gives p.log r some_eq)
                    (λ i. rw (asked i told (holds i q.log), some_eq) refl) in
                rw written (tt, record { flag = flags }))))

    perform-Agrees : (c : PortCall) (p : Port) → IsInOrder c p → Agrees p → Safely (perform env c p)
    unfolding perform
    perform-Agrees (register_call planes) p h a = register-Agrees planes p a
    perform-Agrees clear_registered p h a = clear_registered-Agrees p a
    perform-Agrees (enqueue_data d more private) p h a = enqueue-Agrees d more private p a
    perform-Agrees dequeue_in p h a = dequeue_in-Agrees p a
    perform-Agrees dequeue_out p h a = dequeue_out-Agrees p a
    perform-Agrees run_stream p h a = run-Agrees p a
    perform-Agrees stop_stream p h a = stop-Agrees p h a
    perform-Agrees clear_queue p h a = clear-Agrees p h a

    Reach-Agrees : (p q : Port) → Agrees p → Reach env p q → Agrees q
    Reach-Agrees p q a start = a
    Reach-Agrees p q a (next c r reached h) = (perform-Agrees c r h (Reach-Agrees p r a reached)).1

    -- The flags `bQueued` of a port refine the driver. If they say which buffers the driver holds according to the
    -- log, and the driver gives back only buffers that it holds, then they do so in every state that calls of
    -- Register, Clear_RegisteredBuffer, Enqueue, Dequeue, Run, Stop and Clear_Queue lead to, whichever requests fail,
    -- and the next such call does not access a buffer out of range. The client stops a port only while its stream is
    -- on, and clears its queue only while the driver holds no buffer.
    pub perform-refines :
        (p q : Port) (c : PortCall)
        → Agrees p
        → Reach env p q
        → IsInOrder c q
        → IsSafe (perform env c q).0 × Agrees (perform env c q).1
    perform-refines p q c a reached h = perform-Agrees c q h (Reach-Agrees p q a reached)
