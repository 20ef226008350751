-- ===== src/Scaler/Device.antt =====
-- The state of the device on the two sides of a memory-to-memory conversion, as its log shows it.
mod Rules
mod Steps
pub mod Calls
use exynos.Common.{ℕ, Bool, true, false, Option, none, some, List, [], ◌∷◌, ◌≡◌, if◌then◌else◌}
use exynos.Scaler.Driver.{BufType, video_output, video_capture, Request, streamon, streamoff, Event}
use exynos.Scaler.Handle.{Handle, Session, Side, src_side, dst_side}

abbrev pub same_type : BufType → BufType → Bool
same_type video_output video_output = true
same_type video_capture video_capture = true
same_type _ _ = false

abbrev pub type_of : Side → BufType
type_of src_side = video_output
type_of dst_side = video_capture

-- The stream that a request switches, and how.
abbrev pub switch_of : Request → Option (BufType × Bool)
switch_of (streamon fd t) = some (t, true)
switch_of (streamoff fd t) = some (t, false)
switch_of _ = none

abbrev pub switched : BufType → Option (BufType × Bool) → Bool → Bool
switched type none on = on
switched type (some (t, b)) on = if same_type type t then b else on

-- A request that fails changes nothing.
abbrev pub after : BufType → Request → Option ℕ → Bool → Bool
after type r none on = on
after type r (some v) on = switched type (switch_of r) on

-- Whether the stream of a type is on at the end of a log.
unfoldable pub is_streaming : BufType → List Event → Bool
is_streaming type [] = false
is_streaming type (e ∷ log) = after type e.request e.answer (is_streaming type log)

-- A memory-to-memory handle whose flags say what the device does.
pub record Tracks (s : Session) : Type 0 where
  pub mode_is : s.handle.gsc_mode ≡ 0
  pub src_type : s.handle.src.buf_type ≡ video_output
  pub dst_type : s.handle.dst.buf_type ≡ video_capture
  pub src_on : s.handle.src.stream_on ≡ is_streaming video_output s.log
  pub dst_on : s.handle.dst.stream_on ≡ is_streaming video_capture s.log
