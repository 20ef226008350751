-- ===== src/Decoder/Held.antt =====
-- What the driver holds, by the log of the requests, and the flags of the buffers that should agree with it.
use exynos.Common.{
  ℕ, zero, suc, ◌≡◌, refl, sym, ap, ◌∙◌, Bool, true, false, not, ◌&&◌, ◌||◌, Option, none, some,
  List, [], ◌∷◌, ◌==◌, if◌then◌else◌, Bool-cases, inl, inr,
}
use exynos.Common.Act.{Result, ok, err, crash, pure, continue, ◌>>=◌, ◌>>◌}
use exynos.Common.Act.Keeps.{IsSafe}
use exynos.Decoder.Driver.{
  Plane, Buffer, Data, Request, qbuf, dqbuf, streamoff, display_status, Reply, Event, Env, Port,
  PortOp, Op,
}
use exynos.Decoder.Buffers.{
  set_at, in_range, write_at, take_planes, register_planes, clear_registered_buffer, clear_queued,
  enqueue, dequeue_inbuf, dequeue_outbuf, run_port, stop_port,
}
use exynos.Decoder.Find.{is_free}
use exynos.Decoder.Pool.{same, queued_at, queued_at-each}

-- Whether the driver holds buffer `i` after a request that it has answered.
abbrev pub held_after : ℕ → Request → Reply → Bool → Bool
held_after i (qbuf j own planes) v held = if same i j then true else held
held_after i dqbuf v held = if same i v.index then false else held
held_after i streamoff v held = false
held_after i _ v held = held

abbrev pub after : ℕ → Request → Option Reply → Bool → Bool
after i r none held = held
after i r (some v) held = held_after i r v held

unfoldable pub holds : ℕ → List Event → Bool
holds i [] = false
holds i (e ∷ log) = after i e.request e.answer (holds i log)

-- The flags and the driver agree on every buffer, and the driver holds no others.
pub record Agrees (p : Port) : Type 0 where
  pub flag : (i : ℕ) → queued_at i p.bufs ≡ holds i p.log

pub data PortCall : Type 0 where
  register_call : List Plane → PortCall
  clear_registered : PortCall
  enqueue_data : Data → List Data → ℕ → PortCall
  dequeue_in dequeue_out run_stream stop_stream clear_queue : PortCall

abbrev pub as_call : {A : Type 0} → PortOp A → Op
as_call m = do m; pure tt

unfoldable pub perform : Env → PortCall → Op
perform env (register_call planes) = register_planes env planes
perform env clear_registered = clear_registered_buffer
perform env (enqueue_data d more private) = enqueue env d more private
perform env dequeue_in = as_call (dequeue_inbuf env)
perform env dequeue_out = as_call (dequeue_outbuf env)
perform env run_stream = run_port env
perform env stop_stream = stop_port env
perform env clear_queue = clear_queued

-- A port is stopped while its stream is on, and its queue is cleared while the driver holds no buffer.
abbrev pub IsInOrder : PortCall → Port → Type 0
IsInOrder stop_stream p = p.stream_on ≡ true
IsInOrder clear_queue p = (i : ℕ) → holds i p.log ≡ false
IsInOrder _ p = Unit

-- The states that calls in order lead to.
pub data Reach (env : Env) (p : Port) : Port → Type 0 where
  start : Reach env p p
  next : (c : PortCall) (q : Port) → Reach env p q → IsInOrder c q → Reach env p (perform env c q).1

pub write-ok :
    (f : Buffer → Buffer) (i : ℕ) (p : Port)
    → in_range i p.bufs ≡ true
    → write_at f i p ≡ (ok tt, record p { bufs = set_at f i p.bufs })
unfolding write_at
write-ok f i p h = rw h refl

abbrev pub Safely : {A : Type 0} → Result A × Port → Type 0
Safely r = IsSafe r.0 × Agrees r.1

pub split-if :
    {A : Type 0} (b : Bool) (m n : PortOp A) (p : Port)
    → (b ≡ true → Safely (m p))
    → (b ≡ false → Safely (n p))
    → Safely ((if b then m else n) p)
split-if true m n p f g = f refl
split-if false m n p f g = g refl

pub split-option :
    {A B : Type 0} (o : Option B) (n : PortOp A) (k : B → PortOp A) (p : Port)
    → (o ≡ none → Safely (n p))
    → ((b : B) → o ≡ some b → Safely (k b p))
    → Safely ((let m : PortOp A = elim o [ none ↦ n | some b ↦ k b ] in m) p)
split-option none n k p f g = f refl
split-option (some b) n k p f g = g b refl

pub only_value :
    {A : Type 0} (r : Result A) (q : Port) → Safely (r, q) → Safely (continue r (λ _. pure tt) q)
only_value (ok a) q h = h
only_value err q h = h
only_value crash q h = absurd h.0

pub as_call-Safely : {A : Type 0} (m : PortOp A) (p : Port) → Safely (m p) → Safely (as_call m p)
unfolding ◌>>=◌
as_call-Safely m p h = only_value (m p).0 (m p).1 h

pub same-eq : (i j : ℕ) → same i j ≡ true → i ≡ j
same-eq zero zero h = refl
same-eq zero (suc j) h = absurd (cc h)
same-eq (suc i) zero h = absurd (cc h)
same-eq (suc i) (suc j) h = ap suc (same-eq i j h)

pub free-queued : (addr : ℕ) (b : Buffer) → is_free addr b ≡ true → b.queued ≡ false
free-queued addr b h = go b.queued (addr == 0 || b.plane0.addr == addr) h
  where
    go : (q c : Bool) → (not q && c) ≡ true → q ≡ false
    go true c h = absurd (cc h)
    go false c h = refl

-- The buffer that is taken back was free before.
pub taken_back :
    (x i : ℕ) (b : Bool) (log : List Event)
    → b ≡ (if same x i then true else holds x log)
    → holds i log ≡ false
    → (if same x i then false else b) ≡ holds x log
taken_back x i b log h free = elim (Bool-cases (same x i)) [
  | inl e ↦ let eq = same-eq x i e in rw e (sym free ∙ ap (λ k. holds k log) (sym eq))
  | inr e ↦ rw e (h ∙ (rw e refl))
]

-- A question about the display tells nothing about the buffers.
pub asked : (i : ℕ) (o : Option Reply) (b : Bool) → after i display_status o b ≡ b
asked i none b = refl
asked i (some v) b = refl

pub clear_registered-Agrees : (p : Port) → Agrees p → Safely (clear_registered_buffer p)
unfolding clear_registered_buffer
clear_registered-Agrees p a =
    (tt, record { flag = λ i. queued_at-each _ i p.bufs (λ b. refl) ∙ a.flag i })

pub flag-take : (ps : List Plane) (b : Buffer) → (take_planes ps b).queued ≡ b.queued
flag-take [] b = refl
flag-take (x ∷ []) b = refl
flag-take (x ∷ y ∷ ps) b = refl
