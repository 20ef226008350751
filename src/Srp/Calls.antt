-- ===== src/Srp/Calls.antt =====
-- Every function of srp_api.c keeps the log orderly, and srp_dev the device that is open, until a close fails.
use exynos.Common.{
  ap, sym, ℕ, ◌==◌, ◌≡◌, refl, ◌∙◌, Bool, true, false, Option, none, some, List, [], ◌∷◌,
  if◌then◌else◌,
}
use exynos.Common.Int.{ℤ, pos, eqb_ℤ}
use exynos.Common.Act.{modify, pure, ◌>>=◌, ◌>>◌}
use exynos.Common.Act.Keeps.{IsSafe, Keeps, Keeps-pure}
use exynos.Srp.Device.{Host, Request, Srp, Step, close_device, closed, log_event, open_device}
use exynos.Srp.Api.{
  Ret, plain, already_open, created, not_ready, srp_create, srp_decode, srp_deinit, srp_flush,
  srp_get_dec_info, srp_get_ibuf_info, srp_get_obuf_info, srp_get_params, srp_get_pcm, srp_init,
  srp_is_open, srp_send_eos, srp_set_params, srp_terminate, when_open, pass_on,
}
use exynos.Srp.Orderly.{
  all_closed, Kept, ApiCall, At, Orderly, Tracks, at_rules, holder, perform, run_audio, create,
  decode, get_params, init_device, end_stream, set_params, flush_device, get_pcm, get_info,
  get_ibuf, get_obuf, deinit_device, terminate, is_open,
}

open_body : (body : ℕ → Step Ret) (o : Option ℕ) → Step Ret
open_body body o = elim o [ none ↦ pure (plain not_ready) | some d ↦ body d ]

when_open-Tracks :
    (body : ℕ → Step Ret) → ((d : ℕ) → Keeps (At d) (body d)) → Keeps Kept (when_open body)
unfolding ◌>>=◌ open_body
when_open-Tracks body h = record { at = λ s p. go s p s.dev refl }
  where
    go :
        (s : Srp)
        → Kept s
        → (o : Option ℕ) → s.dev ≡ o
        → IsSafe (open_body body o s).0 × Kept (open_body body o s).1
    go s p none e = (tt, p)
    go s p (some d) e =
        let (safe, q) = (h d).at s (record { tracks = p.tracks; is = e }) in
        (safe, record { tracks = q.tracks })

module _ (host : Host) where
  init-Tracks : Keeps Kept (srp_init host)
  unfolding srp_init
  init-Tracks = when_open-Tracks _ (λ d. search at_rules depth 30)

  decode-Tracks : (buff : ℕ) (size : ℤ) → Keeps Kept (srp_decode host buff size)
  unfolding srp_decode
  decode-Tracks buff size = when_open-Tracks _ (λ d. search at_rules depth 30)

  pass_on-Tracks : (r : Request) → Keeps Kept (pass_on host r)
  pass_on-Tracks r = when_open-Tracks _ (λ d. search at_rules depth 30)

  pcm-Tracks : Keeps Kept (srp_get_pcm host)
  unfolding srp_get_pcm
  pcm-Tracks = when_open-Tracks _ (λ d. search at_rules depth 30)

  ibuf-Tracks : Keeps Kept (srp_get_ibuf_info host)
  unfolding srp_get_ibuf_info
  ibuf-Tracks = when_open-Tracks _ (λ d. search at_rules depth 30)

  obuf-Tracks : Keeps Kept (srp_get_obuf_info host)
  unfolding srp_get_obuf_info
  obuf-Tracks = when_open-Tracks _ (λ d. search at_rules depth 30)

  deinit-Tracks : Keeps Kept (srp_deinit host)
  unfolding srp_deinit
  deinit-Tracks = when_open-Tracks _ (λ d. search at_rules depth 30)

  set_params-Tracks : Keeps Kept (srp_set_params host)
  unfolding srp_set_params
  set_params-Tracks = when_open-Tracks _ (λ d. Keeps-pure (plain (pos 0)))

  is_open-Tracks : Keeps Kept (srp_is_open host)
  unfolding srp_is_open ◌>>=◌
  is_open-Tracks = record { at = λ s p. (tt, p) }

  closed-Tracks :
      (s : Srp) (d : ℕ) (v : ℤ) (b : Bool)
      → eqb_ℤ v (pos 0) ≡ b
      → Kept s
      → s.dev ≡ some d
      → Kept (
          if b then record s { dev = none; log = closed d v ∷ s.log } else log_event (closed d v) s)
  unfolding holder Orderly all_closed
  closed-Tracks s d v true h p e = record {
    tracks = λ a.
        let q = p.tracks (sym (ap (λ c. if c then all_closed s.log else false) h) ∙ a) in
        record { orderly = (q.dev ∙ e, q.orderly); dev = refl };
  }
  closed-Tracks s d v false h p e = record {
    tracks = λ a. absurd (cc (sym (ap (λ c. if c then all_closed s.log else false) h) ∙ a));
  }

  terminate-Tracks : Keeps Kept (srp_terminate host)
  unfolding srp_terminate ◌>>=◌ close_device open_body
  terminate-Tracks = record { at = λ s p. go s p s.dev refl }
    where
      closes : ℕ → Step Ret
      closes d = do
        r ← close_device host d
        pure (plain (if eqb_ℤ r (pos 0) then pos 0 else not_ready))

      go :
          (s : Srp)
          → Kept s
          → (o : Option ℕ) → s.dev ≡ o
          → IsSafe (open_body closes o s).0 × Kept (open_body closes o s).1
      go s p none e = (tt, p)
      go s p (some d) e =
          let v = host.close_device s.log d in (tt, closed-Tracks s d v (eqb_ℤ v (pos 0)) refl p e)

  create-Tracks : (mode : ℕ) → Keeps Kept (srp_create host mode)
  unfolding srp_create ◌>>=◌ open_device holder Orderly all_closed
  create-Tracks mode = record { at = λ s p. go s p s.dev refl }
    where
      opens : Option ℕ → Step Ret
      opens dev = elim dev [
        | some d ↦ pure (plain already_open)
        | none ↦ (do
          modify (λ s. record s { block_mode = mode })
          o ← open_device host (mode == 1)
          pure (plain (created o)))
      ]

      go :
          (s : Srp)
          → Kept s
          → (o : Option ℕ) → s.dev ≡ o
          → IsSafe (opens o s).0 × Kept (opens o s).1
      go s p none e = (
        tt,
        record {
          tracks =
              λ a. record { orderly = ((p.tracks a).dev ∙ e, (p.tracks a).orderly); dev = refl };
        },
      )
      go s p (some d) e = (tt, p)

  perform-Tracks : (c : ApiCall) → Keeps Kept (perform host c)
  unfolding perform srp_send_eos srp_get_params srp_flush srp_get_dec_info
  perform-Tracks (create mode) = create-Tracks mode
  perform-Tracks (decode buff size) = decode-Tracks buff size
  perform-Tracks (get_params id) = pass_on-Tracks _
  perform-Tracks init_device = init-Tracks
  perform-Tracks end_stream = pass_on-Tracks _
  perform-Tracks set_params = set_params-Tracks
  perform-Tracks flush_device = pass_on-Tracks _
  perform-Tracks get_pcm = pcm-Tracks
  perform-Tracks get_info = when_open-Tracks _ (λ d. search at_rules depth 30)
  perform-Tracks get_ibuf = ibuf-Tracks
  perform-Tracks get_obuf = obuf-Tracks
  perform-Tracks deinit_device = deinit-Tracks
  perform-Tracks terminate = terminate-Tracks
  perform-Tracks is_open = is_open-Tracks

run_audio-Kept : (host : Host) (cs : List ApiCall) (s : Srp) → Kept s → Kept (run_audio host cs s)
unfolding run_audio
run_audio-Kept host [] s p = p
run_audio-Kept host (c ∷ cs) s p =
    run_audio-Kept host cs (perform host c s).1 ((perform-Tracks host c).at s p).1

-- Whichever functions of the library are called in whatever order, and whatever the system answers, as long as no close
-- of the device reports an error: a device is opened only while none is open, only the device that is open is asked,
-- mapped or closed, and `srp_dev` is its descriptor, or -1 if none is open, provided that this was so at the start.
pub run_audio-Tracks :
    (host : Host) (cs : List ApiCall) (s : Srp)
    → Tracks s
    → all_closed (run_audio host cs s).log ≡ true
    → Tracks (run_audio host cs s)
run_audio-Tracks host cs s p a =
    (run_audio-Kept host cs s (record { tracks = λ before. p })).tracks a
