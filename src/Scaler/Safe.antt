-- ===== src/Scaler/Safe.antt =====
-- No access through NULL, past the arrays of planes, or by a remainder of 0, and buffer indices in range.
mod M2m
mod Out
mod Cap
pub mod Calls
use exynos.Common.{
  ℕ, zero, suc, ◌≤◌, ◌<◌, ◌≡◌, refl, Bool, true, false, Option, none, some, List, [], ◌∷◌, arith,
}
use exynos.Common.Act.{Result, ok, err, crash, pure, gets, modify, ◌>>=◌}
use exynos.Common.Act.Keeps.{
  IsSafe, Keeps, Keeps-pure, Keeps-fail, Keeps-gets, Keeps-if, Keeps-bind,
}
use exynos.Scaler.Driver.{Request, Env}
use exynos.Scaler.Handle.{
  Image, Entity, Info, Handle, Session, Gsc, Op, Side, src_side, dst_side, info_of, set_info,
  set_handle, set_side, entity_of, call, attempt, vd_fd, sd_fd, sink_fd,
}
use exynos.Scaler.Format.{Sizes}
use exynos.Scaler.M2m.{fill_planes}
use exynos.Scaler.Rules.{logged, Keeps-call, Keeps-attempt}

abbrev pub IsPresent : Option Entity → Type 0
IsPresent none = ⊥
IsPresent (some e) = Unit

-- The planes of `struct gsc_info` are three, and the buffers of the source are three.
abbrev pub IsFit : Side → Info → Type 0
IsFit src_side i = (i.num_planes ≤ 3) × (i.buf_idx < 3)
IsFit dst_side i = i.num_planes ≤ 3

-- A handle of `mode`: on the output and the capture path it has its three entities.
pub record Ready (mode : ℕ) (s : Session) : Type 0 where
  pub mode_is : s.handle.gsc_mode ≡ mode
  pub vd : 1 ≤ mode → IsPresent s.handle.gsc_vd_entity
  pub sd : 1 ≤ mode → IsPresent s.handle.gsc_sd_entity
  pub sink : 1 ≤ mode → IsPresent s.handle.sink_sd_entity
  pub src_fit : IsFit src_side s.handle.src
  pub dst_fit : IsFit dst_side s.handle.dst
  pub frames : 1 ≤ s.handle.dst_img.req_buf_cnt

entity_of-keeps :
    (P : Session → Type 0) (e : Option Entity) (s : Session)
    → IsPresent e
    → P s
    → IsSafe (entity_of e s).0 × P (entity_of e s).1
entity_of-keeps P none s h p = absurd h
entity_of-keeps P (some e) s h p = (tt, p)

module _ {mode : ℕ} where
  pub Ready-logged :
      (r : Request) (a : Option ℕ) (s : Session) → Ready mode s → Ready mode (logged r a s)
  Ready-logged r a s p = record {
    mode_is = p.mode_is;
    vd = p.vd;
    sd = p.sd;
    sink = p.sink;
    src_fit = p.src_fit;
    dst_fit = p.dst_fit;
    frames = p.frames;
  }

  pub Ready-call : (env : Env) (r : Request) → Keeps (Ready mode) (call env r)
  Ready-call env r = Keeps-call env r (Ready-logged r)

  pub Ready-attempt : (env : Env) (r : Request) → Keeps (Ready mode) (attempt env r)
  Ready-attempt env r = Keeps-attempt env r (Ready-logged r)

  pub Ready-with_src :
      (s : Session) (i : Info)
      → Ready mode s
      → IsFit src_side i
      → Ready mode (record s { handle = record s.handle { src = i } })
  Ready-with_src s i p fit = record {
    mode_is = p.mode_is;
    vd = p.vd;
    sd = p.sd;
    sink = p.sink;
    src_fit = fit;
    dst_fit = p.dst_fit;
    frames = p.frames;
  }

  pub Ready-set_side :
      (side : Side) (f : Info → Info)
      → ((i : Info) → IsFit side i → IsFit side (f i))
      → Keeps (Ready mode) (set_side side f)
  unfolding set_info
  Ready-set_side src_side f h = record {
    at = λ s p. (tt, Ready-with_src s (f s.handle.src) p (h s.handle.src p.src_fit));
  }
  Ready-set_side dst_side f h = record {
    at = λ s p. (
      tt,
      record {
        mode_is = p.mode_is;
        vd = p.vd;
        sd = p.sd;
        sink = p.sink;
        src_fit = p.src_fit;
        dst_fit = h s.handle.dst p.dst_fit;
        frames = p.frames;
      },
    );
  }

  pub Ready-planes :
      (side : Side) (s : Session) → Ready mode s → (info_of side s.handle).num_planes ≤ 3
  unfolding info_of
  Ready-planes src_side s p = p.src_fit.0
  Ready-planes dst_side s p = p.dst_fit

  -- A copy that keeps its number of planes and its index.
  pub Ready-tuned :
      (side : Side) (f : Info → Info)
      → ((i : Info) → (f i).num_planes ≡ i.num_planes)
      → ((i : Info) → (f i).buf_idx ≡ i.buf_idx)
      → Keeps (Ready mode) (set_side side f)
  Ready-tuned src_side f same_planes same_index =
      Ready-set_side src_side f
        (λ i p. (omega (arith, same_planes i, p.0), omega (arith, same_index i, p.1)))
  Ready-tuned dst_side f same_planes same_index =
      Ready-set_side dst_side f (λ i p. omega (arith, same_planes i, p))

  pub Ready-dst_img :
      (f : Image → Image)
      → ((i : Image) → (f i).req_buf_cnt ≡ i.req_buf_cnt)
      → Keeps (Ready mode) (set_handle (λ h. record h { dst_img = f h.dst_img }))
  Ready-dst_img f same = record {
    at = λ s p. (
      tt,
      record {
        mode_is = p.mode_is;
        vd = p.vd;
        sd = p.sd;
        sink = p.sink;
        src_fit = p.src_fit;
        dst_fit = p.dst_fit;
        frames = omega (arith, same s.handle.dst_img, p.frames);
      },
    );
  }

  -- The copies of the images, as `config` is given them.
  pub Ready-images :
      (src dst : Image)
      → 1 ≤ dst.req_buf_cnt
      → Keeps (Ready mode) (set_handle (λ h. record h { src_img = src; dst_img = dst }))
  Ready-images src dst h = record {
    at = λ s p. (
      tt,
      record {
        mode_is = p.mode_is;
        vd = p.vd;
        sd = p.sd;
        sink = p.sink;
        src_fit = p.src_fit;
        dst_fit = p.dst_fit;
        frames = h;
      },
    );
  }

  pub Ready-out_mode : (m : ℕ) → Keeps (Ready mode) (set_handle (λ h. record h { out_mode = m }))
  Ready-out_mode m = record {
    at = λ s p. (
      tt,
      record {
        mode_is = p.mode_is;
        vd = p.vd;
        sd = p.sd;
        sink = p.sink;
        src_fit = p.src_fit;
        dst_fit = p.dst_fit;
        frames = p.frames;
      },
    );
  }

  Ready-entity :
      (e : Handle → Option Entity)
      → ((s : Session) → Ready mode s → IsPresent (e s.handle))
      → Keeps (Ready mode) (λ s. entity_of (e s.handle) s)
  Ready-entity e h = record { at = λ s p. entity_of-keeps (Ready mode) (e s.handle) s (h s p) p }

  pub Ready-vd_fd : 1 ≤ mode → Keeps (Ready mode) vd_fd
  Ready-vd_fd h = Ready-entity (λ g. g.gsc_vd_entity) (λ s p. p.vd h)

  pub Ready-sd_fd : 1 ≤ mode → Keeps (Ready mode) sd_fd
  Ready-sd_fd h = Ready-entity (λ g. g.gsc_sd_entity) (λ s p. p.sd h)

  pub Ready-sink_fd : 1 ≤ mode → Keeps (Ready mode) sink_fd
  Ready-sink_fd h = Ready-entity (λ g. g.sink_sd_entity) (λ s p. p.sink h)

  pub Ready-fill_planes :
      (used : Bool) (i : Info) (z : Sizes) (n : ℕ)
      → n ≤ 3
      → Keeps (Ready mode) (fill_planes used i z n)
  unfolding fill_planes
  Ready-fill_planes used i z zero h = Keeps-pure []
  Ready-fill_planes used i z (suc zero) h = Keeps-pure _
  Ready-fill_planes used i z (suc (suc zero)) h = Keeps-pure _
  Ready-fill_planes used i z (suc (suc (suc zero))) h = Keeps-pure _
  Ready-fill_planes used i z (suc (suc (suc (suc n)))) h = absurd (omega (arith, h))

-- The requests of a path go to one of its entities.
pub ruleset ready_rules = (
  Keeps-pure, Keeps-fail, Keeps-gets, Keeps-if, Keeps-bind, Ready-call, Ready-attempt, Ready-vd_fd,
  Ready-sd_fd, Ready-sink_fd,
)
