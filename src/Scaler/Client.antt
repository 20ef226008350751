-- ===== src/Scaler/Client.antt =====
-- What a client does with a handle of exynos_gscaler.c: a sequence of calls, each made whether the one before
-- it succeeded or not.
use exynos.Common.{ℕ, ◌≤◌, List, [], ◌∷◌}
use exynos.Common.Act.{pure, ignore, ◌>>◌}
use exynos.Scaler.Driver.{Env}
use exynos.Scaler.Handle.{Image, Op, Side}
use exynos.Scaler.Settings.{
  ℤ, Format, gsc_set_format, gsc_set_rotation, gsc_set_addr, gsc_set_out_mode, gsc_set_ctrl,
}
use exynos.Scaler.M2m.{gsc_convert}
use exynos.Scaler.Api.{
  gsc_config_exclusive, gsc_run_exclusive, gsc_wait_done, gsc_stop_exclusive, gsc_just_stop,
}

pub data ApiCall : Type 0 where
  set_format : Side → Format → ApiCall
  set_rotation : ℤ → ℕ → ℕ → ApiCall
  set_addr : Side → ℕ → ℕ → ℕ → ApiCall
  set_out_mode : ℤ → ApiCall
  set_ctrl : ℕ → ℤ → ApiCall
  config : Image → Image → ApiCall
  run : Image → Image → ApiCall
  wait stop just_stop convert : ApiCall

unfoldable pub perform : Env → ApiCall → Op
perform env (set_format side f) = gsc_set_format side f
perform env (set_rotation r h v) = gsc_set_rotation r h v
perform env (set_addr side a b c) = gsc_set_addr side a b c
perform env (set_out_mode m) = gsc_set_out_mode m
perform env (set_ctrl i v) = gsc_set_ctrl i v
perform env (config src dst) = gsc_config_exclusive env src dst
perform env (run src dst) = gsc_run_exclusive env src dst
perform env wait = gsc_wait_done env
perform env stop = gsc_stop_exclusive env
perform env just_stop = gsc_just_stop env
perform env convert = gsc_convert env

unfoldable pub run_calls : Env → List ApiCall → Op
run_calls env [] = pure tt
run_calls env (c ∷ cs) = do ignore (perform env c); run_calls env cs

-- The frames of the capture path are asked for by the client, which has to ask for one at least.
abbrev pub AsksFrames : ApiCall → Type 0
AsksFrames (config src dst) = 1 ≤ dst.req_buf_cnt
AsksFrames _ = Unit

abbrev pub AllAskFrames : List ApiCall → Type 0
AllAskFrames [] = Unit
AllAskFrames (c ∷ cs) = AsksFrames c × AllAskFrames cs
