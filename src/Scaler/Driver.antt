-- ===== src/Scaler/Driver.antt =====
-- What exynos_gscaler.c asks of the kernel, and the log of it.
use exynos.Common.{ℕ, Bool, Option, List}
use exynos.Scaler.Format.{PixFmt}

pub data BufType : Type 0 where
  video_output video_capture : BufType

pub data Control : Type 0 where
  rotate hflip vflip cacheable use_sysmmu csc_eq csc_range m2m_ctx_num : Control

pub data Field : Type 0 where
  field_any field_none : Field

pub data MbusCode : Type 0 where
  yuv8_1x24 xrgb8888_4x8_le : MbusCode

-- The subdevice pads that the code names.
pub data Pad : Type 0 where
  gsc_sink gsc_source mixer_sink mixer_source fimd_sink : Pad

pub record Rect : Type 0 where
  pub left : ℕ
  pub top : ℕ
  pub width : ℕ
  pub height : ℕ

pub record PixFormat : Type 0 where
  pub width : ℕ
  pub height : ℕ
  pub pixelformat : PixFmt
  pub field : Field
  pub num_planes : ℕ

pub record Plane : Type 0 where
  pub userptr : ℕ
  pub length : ℕ
  pub bytesused : ℕ

-- The media entities by name, with the number of the device.
pub data EntityName : Type 0 where
  fimd_window : ℕ → EntityName
  mixer : ℕ → EntityName
  fimd : ℕ → EntityName
  out_video : ℕ → EntityName
  out_subdev : ℕ → EntityName
  cap_video : ℕ → EntityName
  cap_subdev : ℕ → EntityName

-- A file descriptor: `none` is a negative one.
abbrev pub Fd : Type 0
Fd = Option ℕ

pub data Request : Type 0 where
  mutex_create open_fb malloc : Request
  open_node : ℕ → Request
  open_entity : EntityName → Request
  media_open : ℕ → Request
  media_close : Request
  get_entity : EntityName → Request
  setup_link : EntityName → EntityName → Bool → Request
  querycap : Fd → Request
  close : ℕ → Request
  g_ctrl : Fd → Control → Request
  s_ctrl : Fd → Control → ℕ → Request
  s_fmt : Fd → BufType → PixFormat → Request
  s_crop : Fd → BufType → Rect → Request
  subdev_s_fmt : Fd → Pad → ℕ → ℕ → MbusCode → Request
  subdev_s_crop : Fd → Pad → Rect → Request
  reqbufs : Fd → BufType → ℕ → Request
  qbuf : Fd → BufType → ℕ → List Plane → Request
  dqbuf : Fd → BufType → Request
  streamon : Fd → BufType → Request
  streamoff : Fd → BufType → Request
  set_vsync_int : Fd → ℕ → Request
  poll : Fd → Request

-- A request with its answer: `none` is a failure.
pub record Event : Type 0 where
  pub request : Request
  pub answer : Option ℕ

-- The code outside the repository: the kernel, whose answer may depend on all that came before (the
-- latest first); the pixel formats of Android as V4L2 formats and their number of planes; ALIGN; the
-- links of a media entity from one entity to another; the descriptor in a media entity that has not been
-- opened; and the flags of Android's HAL_TRANSFORM.
pub record Env : Type 0 where
  pub answer : List Event → Request → Option ℕ
  pub v4l2_pix : ℕ → PixFmt
  pub yuv_planes : PixFmt → Option ℕ
  pub align : ℕ → ℕ → ℕ
  pub links : EntityName → EntityName → EntityName → ℕ
  pub entity_fd : EntityName → Fd
  pub flip_h : ℕ
  pub flip_v : ℕ
  pub rot_90 : ℕ
  pub rot_180 : ℕ
  pub rot_270 : ℕ
