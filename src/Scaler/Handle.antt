-- ===== src/Scaler/Handle.antt =====
-- `struct GSC_HANDLE` and the operations that set its fields.
use exynos.Common.{ℕ, Bool, true, false, Option, none, some, List, [], ◌∷◌}
use exynos.Common.Act.{Result, ok, err, crash, Act, pure, gets, modify, ◌>>=◌, ◌>>◌}
use exynos.Scaler.Format.{PixFmt}
use exynos.Scaler.Driver.{BufType, EntityName, Fd, Request, Event, Env}

-- `exynos_gsc_img`, without the field order, which the code does not read.
pub record Image : Type 0 where
  pub x : ℕ
  pub y : ℕ
  pub w : ℕ
  pub h : ℕ
  pub fw : ℕ
  pub fh : ℕ
  pub format : ℕ
  pub yaddr : ℕ
  pub uaddr : ℕ
  pub vaddr : ℕ
  pub rot : ℕ
  pub cacheable : ℕ
  pub drm_mode : ℕ
  pub req_buf_cnt : ℕ
  pub rgb_csc_type : ℕ
  pub rgb_csc_eq_type : ℕ

-- `struct gsc_info`. Of the V4L2 structures in it only the number of planes outlives the function that
-- fills them in.
pub record Info : Type 0 where
  pub width : ℕ
  pub height : ℕ
  pub crop_left : ℕ
  pub crop_top : ℕ
  pub crop_width : ℕ
  pub crop_height : ℕ
  pub v4l2_colorformat : PixFmt
  pub cacheable : ℕ
  pub mode_drm : ℕ
  pub rotation : ℕ
  pub flip_horizontal : ℕ
  pub flip_vertical : ℕ
  pub addr0 : ℕ
  pub addr1 : ℕ
  pub addr2 : ℕ
  pub stream_on : Bool
  pub buf_type : BufType
  pub num_planes : ℕ
  pub buf_idx : ℕ
  pub qbuf_cnt : ℕ

pub record Entity : Type 0 where
  pub name : EntityName
  pub fd : Fd

-- `none` is NULL for the entities; `media` tells whether the pointer is not NULL.
pub record Handle : Type 0 where
  pub gsc_fd : Fd
  pub src : Info
  pub dst : Info
  pub src_img : Image
  pub dst_img : Image
  pub media : Bool
  pub gsc_sd_entity : Option Entity
  pub gsc_vd_entity : Option Entity
  pub sink_sd_entity : Option Entity
  pub gsc_mode : ℕ
  pub out_mode : ℕ
  pub fb_fd : Fd

-- The handle, and the requests made so far, the latest first.
pub record Session : Type 0 where
  pub handle : Handle
  pub log : List Event

abbrev pub Gsc : Type 0 → Type 0
Gsc A = Act Session A

abbrev pub answered : Option ℕ → Result ℕ
answered none = err
answered (some v) = ok v

-- A request, whose failure is the caller's.
unfoldable pub call : Env → Request → Gsc ℕ
call env r s =
    let a = env.answer s.log r in
    (answered a, record s { log = record { request = r; answer = a } ∷ s.log })

-- A request whose failure the caller looks at: whether it succeeded.
unfoldable pub attempt : Env → Request → Gsc Bool
attempt env r s =
    let a = env.answer s.log r in
    (
      ok (elim a [ none ↦ false | some _ ↦ true ]),
      record s { log = record { request = r; answer = a } ∷ s.log },
    )

-- A request whose answer the caller looks at.
unfoldable pub ask : Env → Request → Gsc (Option ℕ)
ask env r s =
    let a = env.answer s.log r in
    (ok a, record s { log = record { request = r; answer = a } ∷ s.log })

-- Requests in order, up to the first that fails.
unfoldable pub call_all : Env → List Request → Gsc (Unit {0})
unfolding ◌>>=◌ call
call_all env [] = pure tt
call_all env (r ∷ rs) = do call env r; call_all env rs

abbrev pub set_handle : (Handle → Handle) → Gsc (Unit {0})
set_handle f = modify (λ s. record s { handle = f s.handle })

abbrev pub set_src : (Info → Info) → Gsc (Unit {0})
set_src f = set_handle (λ h. record h { src = f h.src })

abbrev pub set_dst : (Info → Info) → Gsc (Unit {0})
set_dst f = set_handle (λ h. record h { dst = f h.dst })

abbrev pub get_handle : Gsc Handle
get_handle = gets (λ s. s.handle)

-- The descriptor of an entity: an access through NULL if there is none.
abbrev pub entity_of : Option Entity → Gsc Fd
entity_of none s = (crash, s)
entity_of (some e) s = (ok e.fd, s)

abbrev pub vd_fd : Gsc Fd
vd_fd s = entity_of s.handle.gsc_vd_entity s

abbrev pub sd_fd : Gsc Fd
sd_fd s = entity_of s.handle.gsc_sd_entity s

abbrev pub sink_fd : Gsc Fd
sink_fd s = entity_of s.handle.sink_sd_entity s

-- An `int` function of the source that returns 0, or -1 for failure.
abbrev pub Op : Type 0
Op = Gsc (Unit {0})

-- `src` and `dst` of the handle, as the functions take them by a pointer.
pub data Side : Type 0 where
  src_side dst_side : Side

unfoldable pub info_of : Side → Handle → Info
info_of src_side h = h.src
info_of dst_side h = h.dst

unfoldable pub set_info : Side → (Info → Info) → Handle → Handle
set_info src_side f h = record h { src = f h.src }
set_info dst_side f h = record h { dst = f h.dst }

abbrev pub set_side : Side → (Info → Info) → Op
set_side side f = set_handle (set_info side f)
