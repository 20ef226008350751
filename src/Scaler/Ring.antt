-- ===== src/Scaler/Ring.antt =====
-- The three buffers of the output path, as the driver holds them.
mod Round
pub mod Frames
use exynos.Common.{
  ℕ, zero, suc, ◌+◌, ◌%◌, ◌<◌, ◌≢◌, ◌≡◌, refl, Bool, true, false, Option, none, some, List, [], ◌∷◌,
  ◌++◌,
}
use exynos.Common.Act.{Result, ok, err, crash, pure, ◌>>=◌, ◌>>◌}
use exynos.Scaler.Driver.{
  BufType, video_output, video_capture, Fd, Request, qbuf, dqbuf, reqbufs, streamoff, Event, Env,
}
use exynos.Scaler.Handle.{Image, Entity, Handle, Session, Gsc, Op}
use exynos.Scaler.Out.{gsc_out_run, gsc_out_wait_frame_done}

abbrev pub rest : List ℕ → List ℕ
rest [] = []
rest (i ∷ is) = is

-- What a request that succeeds does to the buffers that the driver holds, the oldest first.
abbrev pub held_after : Request → List ℕ → List ℕ
held_after (qbuf fd video_output i planes) held = held ++ (i ∷ [])
held_after (dqbuf fd video_output) held = rest held
held_after (reqbufs fd video_output n) held = []
held_after (streamoff fd video_output) held = []
held_after _ held = held

abbrev pub answered_held : Request → Option ℕ → List ℕ → List ℕ
answered_held r none held = held
answered_held r (some v) held = held_after r held

unfoldable pub held : List Event → List ℕ
held [] = []
held (e ∷ log) = answered_held e.request e.answer (held log)

abbrev pub IsNotIn : ℕ → List ℕ → Type 0
IsNotIn i [] = Unit
IsNotIn i (j ∷ js) = (i ≢ j) × IsNotIn i js

-- A buffer that is queued is one of the three, and the driver does not hold it.
abbrev pub IsFree : Request → List ℕ → Type 0
IsFree (qbuf fd video_output i planes) held = (i < 3) × IsNotIn i held
IsFree _ held = Unit

unfoldable pub NeverRequeues : List Event → Type 0
unfolding held
NeverRequeues [] = Unit
NeverRequeues (e ∷ log) = IsFree e.request (held log) × NeverRequeues log

-- The addresses of a frame.
pub record Frame : Type 0 where
  pub y : ℕ
  pub u : ℕ
  pub v : ℕ

-- A client of the output path: each frame is run and waited for.
unfoldable pub show_frames : Env → List Frame → Op
show_frames env [] = pure tt
show_frames env (f ∷ fs) = do
  gsc_out_run env f.y f.u f.v
  gsc_out_wait_frame_done env
  show_frames env fs

-- The buffers that are in the driver after `n` frames.
abbrev pub in_flight : ℕ → List ℕ
in_flight zero = []
in_flight (suc zero) = 0 ∷ []
in_flight (suc (suc n)) = n % 3 ∷ (n + 1) % 3 ∷ []

-- The first frame turns the stream on.
abbrev pub is_on : ℕ → Bool
is_on zero = false
is_on (suc n) = true

-- The state after `n` frames; `e` is the video device, and `img` the source.
pub record AfterFrames (e : Entity) (img : Image) (n : ℕ) (s : Session) : Type 0 where
  pub device : s.handle.gsc_vd_entity ≡ some e
  pub image : s.handle.src_img ≡ img
  pub index : s.handle.src.buf_idx ≡ n % 3
  pub count : s.handle.src.qbuf_cnt ≡ n
  pub streams : s.handle.src.stream_on ≡ is_on n
  pub holds : held s.log ≡ in_flight n
  pub sound : NeverRequeues s.log
