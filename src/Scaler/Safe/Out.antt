-- ===== src/Scaler/Safe/Out.antt =====
-- The operations of the output path keep the handle ready.
use exynos.Common.{
  ℕ, ◌+◌, ◌%◌, ◌≤◌, ◌≡◌, refl, Bool, true, false, not, ◌||◌, Option, none, some, List, ◌==◌,
  Bool-cases, inl, inr, if◌then◌else◌, arith,
}
use exynos.Common.Act.{ok, pure, ◌>>=◌}
use exynos.Common.Act.Keeps.{IsSafe, Keeps, Keeps-fail, Keeps-gets, Keeps-bind, Keeps-option}
use exynos.Scaler.Format.{PixFmt, gsc_get_plane_size}
use exynos.Scaler.Driver.{Fd, Request, Env}
use exynos.Scaler.Handle.{
  Image, Info, Session, Op, src_side, set_src, set_info, set_handle, call_all,
}
use exynos.Scaler.Settings.{Rotation}
use exynos.Scaler.Stop.{rewind, gsc_out_streamoff, gsc_out_stop}
use exynos.Scaler.Out.{
  max_buffers_out, planes_of, copied, out_send, gsc_out_config, out_start, bumped, out_advance,
  gsc_out_run, gsc_out_wait_frame_done,
}
use exynos.Scaler.Safe.{
  IsFit, Ready, Ready-call, Ready-set_side, Ready-with_src, Ready-fill_planes, Ready-vd_fd,
  ready_rules,
}
use exynos.Scaler.Rules.{Keeps-call_all}

pub planes_of-le :
    (env : Env) (pix : PixFmt)
    → ((pix : PixFmt) (n : ℕ) → env.yuv_planes pix ≡ some n → n ≤ 3)
    → planes_of env pix ≤ 3
planes_of-le env pix h = go (env.yuv_planes pix) refl
  where
    go : (o : Option ℕ) → env.yuv_planes pix ≡ o → elim o [ none ↦ 1 | some n ↦ n ] ≤ 3
    go none e = omega arith
    go (some n) e = h pix n e

module _ {mode : ℕ} (path : 1 ≤ mode) (env : Env) where
  src-keeps :
      (f : Info → Info)
      → ((i : Info) → IsFit src_side i → IsFit src_side (f i))
      → Keeps (Ready mode) (set_src f)
  unfolding set_info
  src-keeps f h = Ready-set_side src_side f h

  rewind-keeps : Keeps (Ready mode) (set_src rewind)
  rewind-keeps = src-keeps rewind (λ i p. (p.0, omega arith))

  on-keeps : Keeps (Ready mode) (set_src (λ i. record i { stream_on = true }))
  on-keeps = src-keeps _ (λ i p. p)

  off-keeps : Keeps (Ready mode) (set_src (λ i. record i { stream_on = false }))
  off-keeps = src-keeps _ (λ i p. p)

  pub out_streamoff-keeps : Keeps (Ready mode) (gsc_out_streamoff env)
  unfolding gsc_out_streamoff
  out_streamoff-keeps = search (ready_rules, rewind-keeps, off-keeps, path) depth 16

  pub out_stop-keeps : Keeps (Ready mode) (gsc_out_stop env)
  unfolding gsc_out_stop
  out_stop-keeps = search (ready_rules, rewind-keeps, off-keeps, path) depth 20

  pub out_wait-keeps : Keeps (Ready mode) (gsc_out_wait_frame_done env)
  unfolding gsc_out_wait_frame_done
  out_wait-keeps = search (ready_rules, path) depth 16

  requests-keep : (rs : List Request) → Keeps (Ready mode) (call_all env rs)
  requests-keep rs = Keeps-call_all env rs (Ready-call env)

  send-keeps : (r : Rotation) → Keeps (Ready mode) (out_send env r)
  unfolding out_send
  send-keeps r = search (ready_rules, requests-keep, path) depth 30

  start-keeps : (vd : Fd) → Keeps (Ready mode) (out_start env vd)
  unfolding out_start
  start-keeps vd = search (ready_rules, on-keeps) depth 16

  wrap-keeps :
      Keeps (Ready mode) (set_src (λ i. record i { buf_idx = i.buf_idx % max_buffers_out }))
  wrap-keeps = src-keeps _ (λ i p. (p.0, omega arith))

  skipped :
      (b c : Bool) (m : Op) (s : Session)
      → c ≡ false
      → (if b || not c then pure tt else m) s ≡ (ok tt, s)
  skipped true c m s h = refl
  skipped false true m s h = absurd (cc h)
  skipped false false m s h = refl

  start-idle :
      (vd : Fd) (s : Session)
      → (s.handle.src.buf_idx == 1) ≡ false
      → out_start env vd s ≡ (ok tt, s)
  unfolding out_start ◌>>=◌
  start-idle vd s h = skipped s.handle.src.stream_on (s.handle.src.buf_idx == 1) _ s h

  -- The handle with the next index, which may be 3 until the remainder is copied.
  advanced-at :
      (s : Session) (vd : Fd)
      → Ready mode s
      → IsSafe (out_advance env vd s).0 × Ready mode (out_advance env vd s).1
  unfolding out_advance out_start ◌>>=◌
  advanced-at s vd p = elim (Bool-cases (s.handle.src.buf_idx + 1 == 1)) [
    | inl e ↦
        (Keeps-bind _ _ (start-keeps vd) (λ _. wrap-keeps)).at
          (record s { handle = record s.handle { src = bumped s.handle.src } })
          (Ready-with_src s (bumped s.handle.src) p (p.src_fit.0, ground arith))
    | inr e ↦
        rw (start-idle vd (record s { handle = record s.handle { src = bumped s.handle.src } }) e) (
          tt,
          Ready-with_src s
              (record (bumped s.handle.src) { buf_idx = (s.handle.src.buf_idx + 1) % 3 }) p
              (p.src_fit.0, omega arith),
        )
  ]

  advance-keeps : (vd : Fd) → Keeps (Ready mode) (out_advance env vd)
  advance-keeps vd = record { at = λ s p. advanced-at s vd p }

  pub out_run-keeps :
      (y u v : ℕ)
      → ((pix : PixFmt) (n : ℕ) → env.yuv_planes pix ≡ some n → n ≤ 3)
      → Keeps (Ready mode) (gsc_out_run env y u v)
  unfolding gsc_out_run
  out_run-keeps y u v three = Keeps-bind _ _ (Keeps-gets _) (λ h.
      let pix = env.v4l2_pix h.src_img.format in
      Keeps-bind _ _ (src-keeps _ (λ i p. p)) (λ _.
        Keeps-option (gsc_get_plane_size env.align h.src_img.fw h.src_img.fh pix) _ _
          (λ e. Keeps-fail)
          (λ z e. Keeps-bind _ _ (Keeps-gets _) (λ h1.
            Keeps-bind _ _
              (Ready-fill_planes true h1.src z (planes_of env pix) (planes_of-le env pix three))
              (λ planes.
                Keeps-bind _ _ (Ready-vd_fd path)
                  (λ vd. Keeps-bind _ _ (Ready-call env _) (λ _. advance-keeps vd)))))))

  narrowed :
      (b : Bool) (dst : Image) (w : ℕ)
      → 1 ≤ dst.req_buf_cnt
      → 1 ≤ (if b then record dst { w = w } else dst).req_buf_cnt
  narrowed true dst w h = h
  narrowed false dst w h = h

  copied-keeps :
      (src dst : Image) → 1 ≤ dst.req_buf_cnt → Keeps (Ready mode) (set_handle (copied src dst))
  copied-keeps src dst h = record {
    at = λ s p. (
      tt,
      record {
        mode_is = p.mode_is;
        vd = p.vd;
        sd = p.sd;
        sink = p.sink;
        src_fit = p.src_fit;
        dst_fit = p.dst_fit;
        frames = narrowed (s.handle.out_mode == 1) dst _ h;
      },
    );
  }

  pub out_config-keeps :
      (src dst : Image) → 1 ≤ dst.req_buf_cnt → Keeps (Ready mode) (gsc_out_config env src dst)
  unfolding gsc_out_config
  out_config-keeps src dst h = search (ready_rules, copied-keeps, rewind-keeps, send-keeps) depth 20
