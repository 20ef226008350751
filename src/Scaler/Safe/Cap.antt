-- ===== src/Scaler/Safe/Cap.antt =====
-- The operations of the capture path keep the handle ready.
use exynos.Common.{ℕ, ◌+◌, ◌%◌, ◌≤◌, ◌≡◌, refl, Bool, true, some, ◌==◌, ==→eq, arith}
use exynos.Common.Act.Keeps.{Keeps, Keeps-fail, Keeps-gets, Keeps-if, Keeps-bind, Keeps-option}
use exynos.Scaler.Format.{PixFmt, gsc_get_plane_size}
use exynos.Scaler.Driver.{Fd, Env}
use exynos.Scaler.Handle.{Image, Info, src_side, dst_side, set_src, set_dst, set_info}
use exynos.Scaler.Stop.{rewind, gsc_cap_streamoff, gsc_cap_stop}
use exynos.Scaler.Out.{planes_of}
use exynos.Scaler.Cap.{
  cap_send, gsc_cap_config, cap_start, cap_wrap, gsc_cap_run, gsc_cap_wait_frame_done,
}
use exynos.Scaler.Safe.{
  Ready, Ready-call, Ready-set_side, Ready-images, Ready-fill_planes, Ready-vd_fd, ready_rules,
}
use exynos.Scaler.Safe.M2m.{type-keeps}
use exynos.Scaler.Safe.Out.{planes_of-le}
use exynos.Scaler.Rules.{Keeps-read}

module _ {mode : ℕ} (path : 1 ≤ mode) (env : Env) where
  -- The index of the target is free.
  dst-keeps :
      (f : Info → Info)
      → ((i : Info) → (f i).num_planes ≡ i.num_planes)
      → Keeps (Ready mode) (set_dst f)
  unfolding set_info
  dst-keeps f h = Ready-set_side dst_side f (λ i p. omega (arith, h i, p))

  rewind-keeps : Keeps (Ready mode) (set_dst rewind)
  rewind-keeps = dst-keeps _ (λ i. refl)

  index-keeps : (n : Info → ℕ) → Keeps (Ready mode) (set_dst (λ i. record i { buf_idx = n i }))
  index-keeps n = dst-keeps _ (λ i. refl)

  reset-keeps : Keeps (Ready mode) (set_dst (λ i. record i { buf_idx = 0 }))
  reset-keeps = index-keeps (λ i. 0)

  stream-keeps : (b : Bool) → Keeps (Ready mode) (set_dst (λ i. record i { stream_on = b }))
  stream-keeps b = dst-keeps _ (λ i. refl)

  count-keeps : Keeps (Ready mode) (set_src (λ i. record i { qbuf_cnt = 0 }))
  unfolding set_info
  count-keeps = Ready-set_side src_side _ (λ i p. p)

  pub cap_streamoff-keeps : Keeps (Ready mode) (gsc_cap_streamoff env)
  unfolding gsc_cap_streamoff
  cap_streamoff-keeps = search (ready_rules, rewind-keeps, stream-keeps, path) depth 16

  pub cap_stop-keeps : Keeps (Ready mode) (gsc_cap_stop env)
  unfolding gsc_cap_stop
  cap_stop-keeps = search (ready_rules, reset-keeps, stream-keeps, path) depth 20

  pub cap_wait-keeps : Keeps (Ready mode) (gsc_cap_wait_frame_done env)
  unfolding gsc_cap_wait_frame_done
  cap_wait-keeps = search (ready_rules, path) depth 16

  send-keeps : Keeps (Ready mode) (cap_send env)
  unfolding cap_send
  send-keeps = search (ready_rules, type-keeps env, path) depth 30

  pub cap_config-keeps :
      (src dst : Image) → 1 ≤ dst.req_buf_cnt → Keeps (Ready mode) (gsc_cap_config env src dst)
  unfolding gsc_cap_config
  cap_config-keeps src dst h =
      search (ready_rules, Ready-images, reset-keeps, count-keeps, send-keeps) depth 20

  start-keeps : (vd : Fd) → Keeps (Ready mode) (cap_start env vd)
  unfolding cap_start
  start-keeps vd = search (ready_rules, stream-keeps) depth 16

  wrap-keeps : Keeps (Ready mode) cap_wrap
  unfolding cap_wrap
  wrap-keeps = Keeps-read _ _ (λ s p.
      Keeps-if (s.handle.dst_img.req_buf_cnt == 0) _ _
        (λ e.
          let zero_frames = ==→eq s.handle.dst_img.req_buf_cnt 0 e in
          absurd (omega (arith, zero_frames, p.frames)))
        (λ e. index-keeps (λ i. i.buf_idx % s.handle.dst_img.req_buf_cnt)))

  pub cap_run-keeps :
      (dst : Image)
      → ((pix : PixFmt) (n : ℕ) → env.yuv_planes pix ≡ some n → n ≤ 3)
      → Keeps (Ready mode) (gsc_cap_run env dst)
  unfolding gsc_cap_run
  cap_run-keeps dst three = Keeps-bind _ _ (Keeps-gets _) (λ h.
      let pix = env.v4l2_pix h.dst_img.format in
      Keeps-bind _ _ (dst-keeps _ (λ i. refl)) (λ _.
        Keeps-option (gsc_get_plane_size env.align h.dst_img.fw h.dst_img.fh pix) _ _
          (λ e. Keeps-fail)
          (λ z e. Keeps-bind _ _ (Keeps-gets _) (λ h1.
            Keeps-bind _ _
              (Ready-fill_planes true h1.dst z (planes_of env pix) (planes_of-le env pix three))
              (λ planes. Keeps-bind _ _ (Ready-vd_fd path) (λ vd.
                Keeps-bind _ _ (Ready-call env _) (λ _.
                  Keeps-bind _ _ (index-keeps (λ i. i.buf_idx + 1))
                    (λ _. Keeps-bind _ _ (start-keeps vd) (λ _. wrap-keeps)))))))))
