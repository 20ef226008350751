-- ===== src/Scaler/Ring/Round.antt =====
-- One frame of the output path.
use exynos.Common.{
  ℕ, zero, suc, ◌+◌, ◌%◌, ◌≤◌, ◌<◌, ◌≡◌, refl, Bool, true, false, not, ◌||◌, Option, none, some,
  List, [], ◌∷◌, ◌++◌, leb, lt→ltb, le→ltb, ◌==◌, if◌then◌else◌, arith,
}
use exynos.Common.Act.{pure, ◌>>=◌, ◌>>◌}
use exynos.Common.Act.Good.{Good, Good-bind}
use exynos.Scaler.Format.{Sizes, gsc_get_plane_size}
use exynos.Scaler.Driver.{video_output, Fd, Plane, Request, qbuf, dqbuf, streamon, Event, Env}
use exynos.Scaler.Handle.{Image, Entity, Info, Session, Gsc, Op, call, vd_fd, entity_of}
use exynos.Scaler.M2m.{fill_planes}
use exynos.Scaler.Out.{
  int_below, max_buffers_out, planes_of, bumped, out_start, out_advance, gsc_out_run,
  gsc_out_wait_frame_done,
}
use exynos.Scaler.Rules.{logged}
use exynos.Scaler.Ring.{rest, held, IsNotIn, NeverRequeues, in_flight, is_on, AfterFrames}

fresh_index : (n : ℕ) → IsNotIn (n % 3) (in_flight n)
fresh_index zero = tt
fresh_index (suc zero) = (λ e. omega (arith, e), tt)
fresh_index (suc (suc n)) = (λ e. omega (arith, e), (λ e. omega (arith, e), tt))

-- After the frame has been queued; the oldest one is then taken back, from the third on.
queued : ℕ → List ℕ
queued n = in_flight n ++ (n % 3 ∷ [])

fill-Good :
    (P : Session → Type 0) (used : Bool) (i : Info) (z : Sizes) (n : ℕ) (s : Session)
    → n ≤ 3
    → P s
    → Good (λ planes t. P t) (fill_planes used i z n s)
unfolding fill_planes
fill-Good P used i z zero s h p = p
fill-Good P used i z (suc zero) s h p = p
fill-Good P used i z (suc (suc zero)) s h p = p
fill-Good P used i z (suc (suc (suc zero))) s h p = p
fill-Good P used i z (suc (suc (suc (suc n)))) s h p = absurd (omega (arith, h))

entity-Good :
    (P : Session → Type 0) (o : Option Entity) (e : Entity) (s : Session)
    → o ≡ some e
    → P s
    → Good (λ fd t. P t) (entity_of o s)
entity-Good P none e s h p = absurd (cc h)
entity-Good P (some d) e s h p = p

module _ (env : Env) (answers : List Event → Request → ℕ)
    (replies : (log : List Event) (r : Request) → env.answer log r ≡ some (answers log r)) where
  call-ok :
      {B : Type 0} (R : B → Session → Type 0) (r : Request) (k : ℕ → Gsc B) (s : Session)
      → Good R (k (answers s.log r) (logged r (some (answers s.log r)) s))
      → Good R ((call env r >>= k) s)
  unfolding call ◌>>=◌
  call-ok R r k s h = rw (replies s.log r) h

  started :
      (R : Unit {0} → Session → Type 0) (b c : Bool) (m : Op) (s : Session)
      → b ≡ false
      → c ≡ true
      → Good R (m s)
      → Good R ((if b || not c then pure tt else m) s)
  started R b c m s hb hc h = rw (hb, hc) h

  idle :
      (R : Unit {0} → Session → Type 0) (b c : Bool) (m : Op) (s : Session)
      → b ≡ true
      → R tt s
      → Good R ((if b || not c then pure tt else m) s)
  idle R b c m s hb h = rw hb h

  -- The middle of a frame: `k` is the index of the next buffer, and the frame is in the driver.
  pub record Between (e : Entity) (img : Image) (n k c : ℕ) (on : Bool) (s : Session) : Type 0 where
    device : s.handle.gsc_vd_entity ≡ some e
    image : s.handle.src_img ≡ img
    index : s.handle.src.buf_idx ≡ k
    count : s.handle.src.qbuf_cnt ≡ c
    streams : s.handle.src.stream_on ≡ on
    holds : held s.log ≡ queued n
    sound : NeverRequeues s.log

  start-Good :
      (e : Entity) (img : Image) (n : ℕ) (vd : Fd) (s : Session)
      → Between e img n (n % 3 + 1) (n + 1) (is_on n) s
      → Good (λ _. Between e img n (n % 3 + 1) (n + 1) true) (out_start env vd s)
  unfolding out_start ◌>>=◌ held NeverRequeues
  start-Good e img zero vd s p =
      started _ s.handle.src.stream_on (s.handle.src.buf_idx == 1) _ s p.streams (rw p.index refl) (
        call-ok _ (streamon vd video_output) _ s record {
          device = p.device;
          image = p.image;
          index = p.index;
          count = p.count;
          streams = refl;
          holds = p.holds;
          sound = (tt, p.sound);
        })
  start-Good e img (suc n) vd s p =
      idle _ s.handle.src.stream_on (s.handle.src.buf_idx == 1) _ s p.streams p

  advance-Good :
      (e : Entity) (img : Image) (n : ℕ) (vd : Fd) (s : Session)
      → suc n < 2147483648
      → Between e img n (n % 3) n (is_on n) s
      → Good (λ _. Between e img n (suc n % 3) (suc n) true) (out_advance env vd s)
  unfolding out_advance ◌>>=◌
  advance-Good e img n vd s small p =
      Good-bind (λ _. Between e img n (n % 3 + 1) (n + 1) true) _ (out_start env vd) _
        (record s { handle = record s.handle { src = bumped s.handle.src } })
        (start-Good e img n vd _ record {
          device = p.device;
          image = p.image;
          index = omega (arith, p.index);
          count = omega (arith, p.count, small);
          streams = p.streams;
          holds = p.holds;
          sound = p.sound;
        })
        (λ a u q. record {
          device = q.device;
          image = q.image;
          index = omega (arith, q.index);
          count = omega (arith, q.count);
          streams = q.streams;
          holds = q.holds;
          sound = q.sound;
        })

  -- The buffer is sent to the driver.
  queue-Good :
      (e : Entity) (img : Image) (n i : ℕ) (vd : Fd) (planes : List Plane) (s : Session)
      → suc n < 2147483648
      → i ≡ n % 3
      → AfterFrames e img n s
      → Good
          (λ _. Between e img n (suc n % 3) (suc n) true)
          ((call env (qbuf vd video_output i planes) >> out_advance env vd) s)
  unfolding held NeverRequeues queued
  queue-Good e img n i vd planes s small h p =
      call-ok _ (qbuf vd video_output i planes) (λ _. out_advance env vd) s
        (advance-Good e img n vd _ small record {
          device = p.device;
          image = p.image;
          index = p.index;
          count = p.count;
          streams = p.streams;
          holds = rw (h, p.holds) refl;
          sound = ((rw h (omega arith), rw (h, p.holds) (fresh_index n)), p.sound);
        })

  pub run-Good :
      (e : Entity) (img : Image) (n y u v : ℕ) (z : Sizes) (s : Session)
      → suc n < 2147483648
      → planes_of env (env.v4l2_pix img.format) ≤ 3
      → gsc_get_plane_size env.align img.fw img.fh (env.v4l2_pix img.format) ≡ some z
      → AfterFrames e img n s
      → Good (λ _. Between e img n (suc n % 3) (suc n) true) (gsc_out_run env y u v s)
  unfolding gsc_out_run ◌>>=◌
  run-Good e img n y u v z s small few supported p =
      let pix = env.v4l2_pix s.handle.src_img.format in
      let i = record s.handle.src { addr0 = y; addr1 = u; addr2 = v } in
      let few' : planes_of env pix ≤ 3 = rw p.image few in
      let supported' : gsc_get_plane_size env.align s.handle.src_img.fw s.handle.src_img.fh pix
          ≡ some z =
        rw p.image supported in
      let r : AfterFrames e img n (record s { handle = record s.handle { src = i } }) = record {
        device = p.device;
        image = p.image;
        index = p.index;
        count = p.count;
        streams = p.streams;
        holds = p.holds;
        sound = p.sound;
      } in
      rw supported' (
        Good-bind (λ planes t. AfterFrames e img n t) _ (fill_planes true i z (planes_of env pix)) _
          (record s { handle = record s.handle { src = i } })
          (fill-Good (AfterFrames e img n) true i z (planes_of env pix) _ few' r)
          (λ planes t q.
            Good-bind (λ fd w. AfterFrames e img n w) _ vd_fd _ t
              (entity-Good (AfterFrames e img n) t.handle.gsc_vd_entity e t q.device q)
              (λ fd w q'. queue-Good e img n s.handle.src.buf_idx fd planes w small p.index q')))

  -- From the third frame on, the oldest buffer leaves.
  rest-queued : (n : ℕ) → rest (queued (suc (suc n))) ≡ in_flight (suc (suc (suc n)))
  unfolding queued
  rest-queued n =
      let a : (n + 1) % 3 ≡ suc n % 3 = omega arith in
      let b : suc (suc n) % 3 ≡ (suc n + 1) % 3 = omega arith in rw (a, b) refl

  dequeue-Good :
      (e : Entity) (img : Image) (n : ℕ) (s : Session)
      → Between e img (suc (suc n)) (suc (suc (suc n)) % 3) (suc (suc (suc n))) true s
      → Good
          (λ _. AfterFrames e img (suc (suc (suc n))))
          ((do vd ← vd_fd; call env (dqbuf vd video_output); pure tt) s)
  unfolding held NeverRequeues
  dequeue-Good e img n s p =
      Good-bind (λ fd. Between e img (suc (suc n)) (suc (suc (suc n)) % 3) (suc (suc (suc n))) true)
        _ vd_fd _ s (entity-Good _ s.handle.gsc_vd_entity e s p.device p)
        (λ vd t q.
          call-ok _ (dqbuf vd video_output) (λ _. pure tt) t
            record {
              device = q.device;
              image = q.image;
              index = q.index;
              count = q.count;
              streams = q.streams;
              holds = rw (q.holds, rest-queued n) refl;
              sound = (tt, q.sound);
            })

  lt→leb_false : (a b : ℕ) → a < b → leb b a ≡ false
  lt→leb_false a b h = ground arith

  early :
      (R : Unit {0} → Session → Type 0) (m : Op) (s : Session)
      → s.handle.src.qbuf_cnt < 3
      → R tt s
      → Good R ((if int_below s.handle.src.qbuf_cnt max_buffers_out then pure tt else m) s)
  early R m s h r = rw (lt→ltb s.handle.src.qbuf_cnt 3 h) r

  late :
      (R : Unit {0} → Session → Type 0) (m : Op) (s : Session)
      → 3 ≤ s.handle.src.qbuf_cnt
      → s.handle.src.qbuf_cnt < 2147483648
      → Good R (m s)
      → Good R ((if int_below s.handle.src.qbuf_cnt max_buffers_out then pure tt else m) s)
  late R m s h small r =
      rw (le→ltb s.handle.src.qbuf_cnt 3 h, lt→leb_false s.handle.src.qbuf_cnt 2147483648 small) r

  pub wait-Good :
      (e : Entity) (img : Image) (n : ℕ) (s : Session)
      → suc n < 2147483648
      → Between e img n (suc n % 3) (suc n) true s
      → Good (λ _. AfterFrames e img (suc n)) (gsc_out_wait_frame_done env s)
  unfolding gsc_out_wait_frame_done ◌>>=◌ queued
  wait-Good e img zero s small p = early _ _ s (omega (arith, p.count)) record {
    device = p.device;
    image = p.image;
    index = p.index;
    count = p.count;
    streams = p.streams;
    holds = p.holds;
    sound = p.sound;
  }
  wait-Good e img (suc zero) s small p = early _ _ s (omega (arith, p.count)) record {
    device = p.device;
    image = p.image;
    index = p.index;
    count = p.count;
    streams = p.streams;
    holds = p.holds;
    sound = p.sound;
  }
  wait-Good e img (suc (suc n)) s small p =
      late _ _ s (omega (arith, p.count)) (omega (arith, p.count, small)) (dequeue-Good e img n s p)
