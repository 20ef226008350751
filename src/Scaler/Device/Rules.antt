-- ===== src/Scaler/Device/Rules.antt =====
-- What keeps the flags of a handle true to the device.
use exynos.Common.{ℕ, Bool, Option, none, some, ◌≡◌, refl, ap, ◌∙◌}
use exynos.Common.Act.{continue, ◌>>=◌, ◌>>◌}
use exynos.Common.Act.Stays.{Stays}
use exynos.Scaler.Driver.{BufType, video_output, video_capture, Request, Env}
use exynos.Scaler.Handle.{
  Info, Handle, Session, Side, src_side, dst_side, info_of, set_info, set_side, set_handle, call,
  answered,
}
use exynos.Scaler.Rules.{logged}
use exynos.Scaler.Device.{type_of, switch_of, after, is_streaming, Tracks}

after-neutral :
    (type : BufType) (r : Request) (a : Option ℕ) (on : Bool)
    → switch_of r ≡ none
    → after type r a on ≡ on
after-neutral type r none on h = refl
after-neutral type r (some v) on h = rw h refl

pub Tracks-logged :
    (r : Request) (a : Option ℕ) (s : Session)
    → switch_of r ≡ none
    → Tracks s
    → Tracks (logged r a s)
unfolding is_streaming
Tracks-logged r a s h p = record {
  mode_is = p.mode_is;
  src_type = p.src_type;
  dst_type = p.dst_type;
  src_on = rw (after-neutral video_output r a (is_streaming video_output s.log) h) p.src_on;
  dst_on = rw (after-neutral video_capture r a (is_streaming video_capture s.log) h) p.dst_on;
}

pub Tracks-call : (env : Env) (r : Request) → switch_of r ≡ none → Stays Tracks (call env r)
unfolding call
Tracks-call env r h = record { at = λ s p. Tracks-logged r (env.answer s.log r) s h p }

-- A copy that keeps its flag and its type.
pub Tracks-tuned :
    (side : Side) (f : Info → Info)
    → ((i : Info) → (f i).stream_on ≡ i.stream_on)
    → ((i : Info) → (f i).buf_type ≡ i.buf_type)
    → Stays Tracks (set_side side f)
unfolding set_info
Tracks-tuned src_side f flag type = record {
  at = λ s p. record {
    mode_is = p.mode_is;
    src_type = type s.handle.src ∙ p.src_type;
    dst_type = p.dst_type;
    src_on = flag s.handle.src ∙ p.src_on;
    dst_on = p.dst_on;
  };
}
Tracks-tuned dst_side f flag type = record {
  at = λ s p. record {
    mode_is = p.mode_is;
    src_type = p.src_type;
    dst_type = type s.handle.dst ∙ p.dst_type;
    src_on = p.src_on;
    dst_on = flag s.handle.dst ∙ p.dst_on;
  };
}

-- A change of the images or of the output mode.
pub Tracks-other :
    (f : Handle → Handle)
    → ((h : Handle) → (f h).src ≡ h.src)
    → ((h : Handle) → (f h).dst ≡ h.dst)
    → ((h : Handle) → (f h).gsc_mode ≡ h.gsc_mode)
    → Stays Tracks (set_handle f)
Tracks-other f src dst mode = record {
  at = λ s p. record {
    mode_is = mode s.handle ∙ p.mode_is;
    src_type = ap (λ i. i.buf_type) (src s.handle) ∙ p.src_type;
    dst_type = ap (λ i. i.buf_type) (dst s.handle) ∙ p.dst_type;
    src_on = ap (λ i. i.stream_on) (src s.handle) ∙ p.src_on;
    dst_on = ap (λ i. i.stream_on) (dst s.handle) ∙ p.dst_on;
  };
}

-- The device has switched one side.
switched-Tracks :
    (side : Side) (r : Request) (b : Bool) (v : ℕ) (s : Session)
    → switch_of r ≡ some (type_of side, b)
    → Tracks s
    → Tracks (set_side side (λ j. record j { stream_on = b }) (logged r (some v) s)).1
unfolding is_streaming set_info
switched-Tracks src_side r b v s h p = record {
  mode_is = p.mode_is;
  src_type = p.src_type;
  dst_type = p.dst_type;
  src_on = rw h refl;
  dst_on = rw h p.dst_on;
}
switched-Tracks dst_side r b v s h p = record {
  mode_is = p.mode_is;
  src_type = p.src_type;
  dst_type = p.dst_type;
  src_on = rw h p.src_on;
  dst_on = rw h refl;
}

failed-Tracks : (r : Request) (s : Session) → Tracks s → Tracks (logged r none s)
unfolding is_streaming
failed-Tracks r s p = record {
  mode_is = p.mode_is;
  src_type = p.src_type;
  dst_type = p.dst_type;
  src_on = p.src_on;
  dst_on = p.dst_on;
}

-- The request, and then the flag.
pub Tracks-switch :
    (env : Env) (side : Side) (r : Request) (b : Bool)
    → switch_of r ≡ some (type_of side, b)
    → Stays Tracks (do call env r; set_side side (λ j. record j { stream_on = b }))
unfolding call ◌>>=◌
Tracks-switch env side r b h = record { at = λ s p. go s p (env.answer s.log r) }
  where
    go :
        (s : Session)
        → Tracks s
        → (a : Option ℕ)
        → Tracks
            (continue
              (answered a)
              (λ _. set_side side (λ j. record j { stream_on = b }))
              (logged r a s)).1
    go s p none = failed-Tracks r s p
    go s p (some v) = switched-Tracks side r b v s h p

pub type-side :
    (side : Side) (s : Session) → Tracks s → (info_of side s.handle).buf_type ≡ type_of side
unfolding info_of
type-side src_side s p = p.src_type
type-side dst_side s p = p.dst_type
