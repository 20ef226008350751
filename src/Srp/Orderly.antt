-- ===== src/Srp/Orderly.antt =====
-- At most one device is open, and only the open device is asked, in what the functions of srp_api.c do.
use exynos.Common.{
  Bool, true, false, ap, sym, ℕ, ◌≡◌, ◌∙◌, Option, none, some, List, [], ◌∷◌, if◌then◌else◌,
}
use exynos.Common.Int.{ℤ, pos, eqb_ℤ}
use exynos.Common.Act.{modify}
use exynos.Common.Act.Keeps.{IsSafe, Keeps, Keeps-pure, Keeps-gets, Keeps-if, Keeps-bind}
use exynos.Srp.Device.{
  Event, Host, Request, Srp, Step, ask, asked, closed, log_event, map_memory, mapped, opened,
  unmapped,
}
use exynos.Srp.Api.{
  Ret, srp_create, srp_decode, srp_deinit, srp_flush, srp_get_dec_info, srp_get_ibuf_info,
  srp_get_obuf_info, srp_get_params, srp_get_pcm, srp_init, srp_is_open, srp_send_eos,
  srp_set_params, srp_terminate,
}

-- The device that is open, by what was done. close(2) releases the descriptor also when it reports an error.
unfoldable pub holder : List Event → Option ℕ
holder [] = none
holder (opened b o ∷ log) = o
holder (closed d v ∷ log) = none
holder (asked d r v ∷ log) = holder log
holder (mapped d n a ∷ log) = holder log
holder (unmapped a n ∷ log) = holder log

-- No close has reported an error.
unfoldable pub all_closed : List Event → Bool
all_closed [] = true
all_closed (opened b o ∷ log) = all_closed log
all_closed (closed d v ∷ log) = let rest = all_closed log in if eqb_ℤ v (pos 0) then rest else false
all_closed (asked d r v ∷ log) = all_closed log
all_closed (mapped d n a ∷ log) = all_closed log
all_closed (unmapped a n ∷ log) = all_closed log

-- A device is opened only while none is open, and asked, mapped and closed only while it is open itself.
unfoldable pub Orderly : List Event → Type 0
Orderly [] = Unit
Orderly (opened b o ∷ log) = (holder log ≡ none) × Orderly log
Orderly (closed d v ∷ log) = (holder log ≡ some d) × Orderly log
Orderly (asked d r v ∷ log) = (holder log ≡ some d) × Orderly log
Orderly (mapped d n a ∷ log) = (holder log ≡ some d) × Orderly log
Orderly (unmapped a n ∷ log) = Orderly log

-- The static `srp_dev` is the device that is open.
pub record Tracks (s : Srp) : Type 0 where
  pub orderly : Orderly s.log
  pub dev : holder s.log ≡ s.dev

-- So it is as long as no close has failed.
pub record Kept (s : Srp) : Type 0 where
  pub tracks : all_closed s.log ≡ true → Tracks s

pub record At (d : ℕ) (s : Srp) : Type 0 where
  pub tracks : all_closed s.log ≡ true → Tracks s
  pub is : s.dev ≡ some d

pub data ApiCall : Type 0 where
  create : ℕ → ApiCall
  decode : ℕ → ℤ → ApiCall
  get_params : ℕ → ApiCall
  init_device end_stream set_params flush_device get_pcm get_info get_ibuf get_obuf deinit_device
        terminate is_open :
      ApiCall

unfoldable pub perform : Host → ApiCall → Step Ret
perform host (create mode) = srp_create host mode
perform host (decode buff size) = srp_decode host buff size
perform host (get_params id) = srp_get_params host id
perform host init_device = srp_init host
perform host end_stream = srp_send_eos host
perform host set_params = srp_set_params host
perform host flush_device = srp_flush host
perform host get_pcm = srp_get_pcm host
perform host get_info = srp_get_dec_info host
perform host get_ibuf = srp_get_ibuf_info host
perform host get_obuf = srp_get_obuf_info host
perform host deinit_device = srp_deinit host
perform host terminate = srp_terminate host
perform host is_open = srp_is_open host

unfoldable pub run_audio : Host → List ApiCall → Srp → Srp
run_audio host [] s = s
run_audio host (c ∷ cs) s = run_audio host cs (perform host c s).1

module _ {d : ℕ} where
  pub ask-At : (host : Host) (r : Request) → Keeps (At d) (ask host d r)
  unfolding ask holder Orderly all_closed
  ask-At host r = record {
    at = λ s h. (
      tt,
      record {
        tracks = λ a. record {
          orderly = ((h.tracks a).dev ∙ h.is, (h.tracks a).orderly);
          dev = (h.tracks a).dev;
        };
        is = h.is;
      },
    );
  }

  pub map-At : (host : Host) (n : ℕ) → Keeps (At d) (map_memory host d n)
  unfolding map_memory holder Orderly all_closed
  map-At host n = record {
    at = λ s h. (
      tt,
      record {
        tracks = λ a. record {
          orderly = ((h.tracks a).dev ∙ h.is, (h.tracks a).orderly);
          dev = (h.tracks a).dev;
        };
        is = h.is;
      },
    );
  }

  -- A write that keeps `srp_dev`, and what was done.
  pub write-At :
      (f : Srp → Srp)
      → ((s : Srp) → (f s).log ≡ s.log)
      → ((s : Srp) → (f s).dev ≡ s.dev)
      → Keeps (At d) (modify f)
  write-At f same_log same_dev = record {
    at = λ s h. (
      tt,
      record {
        tracks = λ a.
            let q = h.tracks (ap all_closed (sym (same_log s)) ∙ a) in
            record { orderly = rw (same_log s) q.orderly; dev = rw (same_log s, same_dev s) q.dev };
        is = rw (same_dev s) h.is;
      },
    );
  }

  pub unmap-At :
      (f : Srp → ℕ) (g : Srp → ℕ) → Keeps (At d) (modify (λ s. log_event (unmapped (f s) (g s)) s))
  unfolding holder Orderly all_closed
  unmap-At f g = record {
    at = λ s h. (
      tt,
      record {
        tracks = λ a. record { orderly = (h.tracks a).orderly; dev = (h.tracks a).dev };
        is = h.is;
      },
    );
  }

pub ruleset at_rules =
    (ask-At, map-At, write-At, unmap-At, Keeps-pure, Keeps-gets, Keeps-if, Keeps-bind)
