-- ===== src/Scaler/Device/Calls.antt =====
-- The flags of a memory-to-memory handle refine the state of the device.
use exynos.Common.{ℕ, List, [], ◌∷◌, ◌≡◌, refl}
use exynos.Common.Act.{gets, ◌>>=◌}
use exynos.Common.Act.Stays.{Stays, Stays-pure, Stays-bind, Stays-read, Stays-ignore}
use exynos.Scaler.Driver.{Env}
use exynos.Scaler.Handle.{Session, Op}
use exynos.Scaler.Api.{
  by_mode, gsc_config_exclusive, gsc_run_exclusive, gsc_wait_done, gsc_stop_exclusive,
  gsc_just_stop,
}
use exynos.Scaler.Client.{ApiCall, perform, run_calls}
use exynos.Scaler.Device.{Tracks}
use exynos.Scaler.Device.Steps.{
  wait-Stays, convert-Stays, set_format_of-Stays, set_addr_of-Stays, set_rotation-Stays,
  set_out_mode-Stays, set_ctrl-Stays, m2m_run-Stays, m2m_config-Stays,
}

by_mode-0 : (mode : ℕ) (m o c : Op) → mode ≡ 0 → by_mode mode m o c ≡ m
unfolding by_mode
by_mode-0 mode m o c h = rw h refl

dispatch :
    (m o c : Op)
    → Stays Tracks m
    → Stays Tracks (gets (λ (s : Session). s.handle) >>= λ h. by_mode h.gsc_mode m o c)
dispatch m o c k = Stays-read _ _ (λ s p. rw (by_mode-0 s.handle.gsc_mode m o c p.mode_is) k)

module _ (env : Env) where
  perform-Stays : (c : ApiCall) → Stays Tracks (perform env c)
  unfolding perform gsc_config_exclusive gsc_run_exclusive gsc_wait_done gsc_stop_exclusive
      gsc_just_stop
  perform-Stays (ApiCall.set_format side f) = set_format_of-Stays env side f
  perform-Stays (ApiCall.set_rotation r a b) = set_rotation-Stays env r a b
  perform-Stays (ApiCall.set_addr side a b c) = set_addr_of-Stays env side a b c
  perform-Stays (ApiCall.set_out_mode m) = set_out_mode-Stays env m
  perform-Stays (ApiCall.set_ctrl i v) = set_ctrl-Stays env i v
  perform-Stays (ApiCall.config src dst) = dispatch _ _ _ (m2m_config-Stays env src dst)
  perform-Stays (ApiCall.run src dst) = dispatch _ _ _ (m2m_run-Stays env src dst)
  perform-Stays ApiCall.wait = dispatch _ _ _ (wait-Stays env)
  perform-Stays ApiCall.stop = dispatch _ _ _ (Stays-pure tt)
  perform-Stays ApiCall.just_stop = dispatch _ _ _ (Stays-pure tt)
  perform-Stays ApiCall.convert = convert-Stays env

  run_calls-Stays : (cs : List ApiCall) → Stays Tracks (run_calls env cs)
  unfolding run_calls
  run_calls-Stays [] = Stays-pure tt
  run_calls-Stays (c ∷ cs) =
      Stays-bind _ _ (Stays-ignore _ (perform-Stays c)) (λ _. run_calls-Stays cs)

  -- The flags `stream_on` of a memory-to-memory handle refine the device. If they say which streams are on
  -- according to the log of the requests and their answers, then they do so after any sequence of calls,
  -- whichever of the requests fail.
  pub run_calls-Tracks :
      (cs : List ApiCall) (s : Session) → Tracks s → Tracks (run_calls env cs s).1
  run_calls-Tracks cs s h = (run_calls-Stays cs).at s h
