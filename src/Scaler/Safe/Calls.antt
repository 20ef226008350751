-- ===== src/Scaler/Safe/Calls.antt =====
-- Any sequence of calls leaves a ready handle ready.
use exynos.Common.{ℕ, ◌≤◌, ◌≡◌, some, List, [], ◌∷◌, ◌==◌, ==→eq, arith}
use exynos.Common.Act.{gets, ◌>>=◌}
use exynos.Common.Act.Keeps.{IsSafe, Keeps, Keeps-pure, Keeps-fail, Keeps-if, Keeps-bind}
use exynos.Scaler.Format.{PixFmt}
use exynos.Scaler.Driver.{BufType, Fd, PixFormat, s_fmt, Event, Env}
use exynos.Scaler.Handle.{Session, Op}
use exynos.Scaler.Settings.{ℤ, pos, negsuc, gsc_set_out_mode, gsc_set_ctrl}
use exynos.Scaler.Api.{
  by_mode, gsc_config_exclusive, gsc_run_exclusive, gsc_wait_done, gsc_stop_exclusive,
  gsc_just_stop,
}
use exynos.Scaler.Client.{ApiCall, perform, run_calls, AsksFrames, AllAskFrames}
use exynos.Scaler.Rules.{Keeps-read, Keeps-ignore}
use exynos.Scaler.Safe.{Ready, Ready-out_mode, ready_rules}
use exynos.Scaler.Safe.M2m.{
  wait-keeps, convert-keeps, set_format_of-keeps, set_addr_of-keeps, set_rotation-keeps,
  m2m_run-keeps, m2m_config-keeps,
}
use exynos.Scaler.Safe.Out.{
  out_streamoff-keeps, out_stop-keeps, out_wait-keeps, out_run-keeps, out_config-keeps,
}
use exynos.Scaler.Safe.Cap.{
  cap_streamoff-keeps, cap_stop-keeps, cap_wait-keeps, cap_run-keeps, cap_config-keeps,
}

Keeps-by_mode :
    {P : Session → Type 0} (mode : ℕ) (m o c : Op)
    → Keeps P m
    → (1 ≤ mode → Keeps P o)
    → (1 ≤ mode → Keeps P c)
    → Keeps P (by_mode mode m o c)
unfolding by_mode
Keeps-by_mode mode m o c km ko kc =
    Keeps-if (mode == 0) _ _ (λ e. km)
      (λ e.
        Keeps-if (mode == 1) _ _ (λ e. ko (let one = ==→eq mode 1 e in omega (arith, one)))
          (λ e.
            Keeps-if (mode == 2) _ _ (λ e. kc (let two = ==→eq mode 2 e in omega (arith, two)))
              (λ e. Keeps-pure tt)))

module _ {mode : ℕ} (env : Env) where
  set_out_mode-keeps : (m : ℤ) → Keeps (Ready mode) (gsc_set_out_mode m)
  unfolding gsc_set_out_mode
  set_out_mode-keeps (negsuc n) = Keeps-fail
  set_out_mode-keeps (pos n) = search (ready_rules, Ready-out_mode)

  set_ctrl-keeps : (i : ℕ) (m : ℤ) → Keeps (Ready mode) (gsc_set_ctrl i m)
  unfolding gsc_set_ctrl
  set_ctrl-keeps i m = Keeps-if (i == 0) _ _ (λ e. set_out_mode-keeps m) (λ e. Keeps-pure tt)

  -- The choice by the mode that the handle has.
  dispatch :
      (m o c : Op)
      → Keeps (Ready mode) m
      → (1 ≤ mode → Keeps (Ready mode) o)
      → (1 ≤ mode → Keeps (Ready mode) c)
      → Keeps (Ready mode) (gets (λ (s : Session). s.handle) >>= λ h. by_mode h.gsc_mode m o c)
  dispatch m o c km ko kc = Keeps-read _ _ (λ s p.
      Keeps-by_mode s.handle.gsc_mode m o c km (λ h. ko (omega (arith, h, p.mode_is)))
        (λ h. kc (omega (arith, h, p.mode_is))))

  module _ (three : (pix : PixFmt) (n : ℕ) → env.yuv_planes pix ≡ some n → n ≤ 3)
      (left : (log : List Event) (fd : Fd) (type : BufType) (f : PixFormat) (n : ℕ)
        → env.answer log (s_fmt fd type f) ≡ some n
        → n ≤ 3) where
    perform-keeps : (c : ApiCall) → AsksFrames c → Keeps (Ready mode) (perform env c)
    unfolding perform gsc_config_exclusive gsc_run_exclusive gsc_wait_done gsc_stop_exclusive
        gsc_just_stop
    perform-keeps (ApiCall.set_format side f) h = set_format_of-keeps env side f
    perform-keeps (ApiCall.set_rotation r a b) h = set_rotation-keeps env r a b
    perform-keeps (ApiCall.set_addr side a b c) h = set_addr_of-keeps env side a b c
    perform-keeps (ApiCall.set_out_mode m) h = set_out_mode-keeps m
    perform-keeps (ApiCall.set_ctrl i v) h = set_ctrl-keeps i v
    perform-keeps (ApiCall.config src dst) h =
        dispatch _ _ _ (m2m_config-keeps env src dst h)
          (λ path. out_config-keeps path env src dst h)
          (λ path. cap_config-keeps path env src dst h)
    perform-keeps (ApiCall.run src dst) h =
        dispatch _ _ _ (m2m_run-keeps env src dst left) (λ path. out_run-keeps path env _ _ _ three)
          (λ path. cap_run-keeps path env dst three)
    perform-keeps ApiCall.wait h =
        dispatch _ _ _ (wait-keeps env) (λ path. out_wait-keeps path env)
          (λ path. cap_wait-keeps path env)
    perform-keeps ApiCall.stop h =
        dispatch _ _ _ (Keeps-pure tt) (λ path. out_stop-keeps path env)
          (λ path. cap_stop-keeps path env)
    perform-keeps ApiCall.just_stop h =
        dispatch _ _ _ (Keeps-pure tt) (λ path. out_streamoff-keeps path env)
          (λ path. cap_streamoff-keeps path env)
    perform-keeps ApiCall.convert h = convert-keeps env left

    run_calls-keeps : (cs : List ApiCall) → AllAskFrames cs → Keeps (Ready mode) (run_calls env cs)
    unfolding run_calls
    run_calls-keeps [] h = Keeps-pure tt
    run_calls-keeps (c ∷ cs) h =
        Keeps-bind _ _ (Keeps-ignore _ (perform-keeps c h.0)) (λ _. run_calls-keeps cs h.1)

    -- From a handle that is ready for its mode, whatever the driver answers, no sequence of calls accesses
    -- memory through NULL, writes past the three planes of a buffer or divides by 0, and the handle is ready
    -- afterwards: in particular the next buffer of the output path is 0, 1 or 2. A driver is assumed that leaves
    -- three planes at most in a format, as is `get_yuv_planes`, and a client that asks for at least one frame
    -- when it configures.
    pub run_calls-Ready :
        (cs : List ApiCall) (s : Session)
        → Ready mode s
        → AllAskFrames cs
        → IsSafe (run_calls env cs s).0 × Ready mode (run_calls env cs s).1
    run_calls-Ready cs s ready frames = (run_calls-keeps cs frames).at s ready
