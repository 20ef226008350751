-- ===== src/Decoder/Driver.antt =====
-- What a port of ExynosVideoDecoder.c is made of, and what it asks of the driver.
use exynos.Common.{ℕ, Bool, Option, List, ◌∷◌}
use exynos.Common.Act.{ok, Act, modify}

-- `ExynosVideoPlane`, as a buffer is registered with it. An address 0 is NULL.
pub record Plane : Type 0 where
  pub addr : ℕ
  pub alloc_size : ℕ
  pub data_size : ℕ
  pub fd : ℕ

pub data FrameStatus : Type 0 where
  unknown decoding_only display_decoding display_only change_resol : FrameStatus

pub data FrameType : Type 0 where
  frame_i frame_p frame_b others : FrameType

-- `ExynosVideoBuffer`. The port has one or two planes.
pub record Buffer : Type 0 where
  pub plane0 : Plane
  pub plane1 : Plane
  pub queued : Bool
  pub registered : Bool
  pub private : ℕ
  pub display_status : FrameStatus
  pub frame_type : FrameType
  pub interlaced : Bool

-- What a client passes for one plane.
pub record Data : Type 0 where
  pub addr : ℕ
  pub size : ℕ

-- One plane of a `v4l2_buffer`, `target` being the union of the address and the descriptor: `none` where it is not set.
pub record Sent : Type 0 where
  pub target : Option ℕ
  pub length : Option ℕ
  pub bytesused : Option ℕ

-- `qbuf` has the index, and whether the memory is the client's.
pub data Request : Type 0 where
  qbuf : ℕ → Bool → List Sent → Request
  dqbuf streamon streamoff display_status : Request

-- The fields that the code names; `progressive` is any other.
pub data Field : Type 0 where
  field_interlaced field_interlaced_tb field_interlaced_bt progressive : Field

-- What the driver tells: for `dqbuf` the index, the flags, the field and the bytes used of the first plane, for `display_status` the value.
pub record Reply : Type 0 where
  pub index : ℕ
  pub flags : ℕ
  pub field : Field
  pub value : ℕ
  pub bytesused : ℕ

pub record Event : Type 0 where
  pub request : Request
  pub answer : Option Reply

-- The driver; USE_DMA_BUF of the build; the flags of V4L2 for the kinds of frames; what stands in a variable that is not
-- set; and of the port, whether it is the input, and its number of planes.
pub record Env : Type 0 where
  pub answer : List Event → Request → Option Reply
  pub use_dma_buf : Bool
  pub flag_key : ℕ
  pub flag_p : ℕ
  pub flag_b : ℕ
  pub garbage : ℕ
  pub is_input : Bool
  pub planes : ℕ

-- One port of the context, and the requests that were made for it, the latest first.
pub record Port : Type 0 where
  pub bufs : List Buffer
  pub stream_on : Bool
  pub shared : Bool
  pub log : List Event

abbrev pub PortOp : Type 0 → Type 0
PortOp A = Act Port A

abbrev pub Op : Type 0
Op = PortOp (Unit {0})

abbrev pub logged : Request → Option Reply → Port → Port
logged r a p = record p { log = record { request = r; answer = a } ∷ p.log }

-- A request, with the answer.
unfoldable pub ask : Env → Request → PortOp (Option Reply)
ask env r p = (ok (env.answer p.log r), logged r (env.answer p.log r) p)

abbrev pub set_bufs : (List Buffer → List Buffer) → Op
set_bufs f = modify (λ p. record p { bufs = f p.bufs })
