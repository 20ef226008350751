-- ===== src/Scaler/Safe/M2m.antt =====
-- The memory-to-memory operations keep the handle ready.
use exynos.Common.{ℕ, ◌≤◌, ◌≡◌, refl, false, not, ◌&&◌, some, List, arith}
use exynos.Common.Act.{◌>>=◌}
use exynos.Common.Act.Keeps.{Keeps, Keeps-fail, Keeps-gets, Keeps-if, Keeps-bind, Keeps-option}
use exynos.Scaler.Format.{
  PixFmt, rgb32, bgr32, rgb24, rgb565, rgb555x, rgb444, yuyv, uyvy, nv12m, nv12mt_16x16, nv12, nv21,
  nv21m, nv16, nv61, yvu420m, yuv422p, yuv420m, unmatched, gsc_get_plane_count, gsc_get_plane_size,
}
use exynos.Scaler.Driver.{BufType, Fd, PixFormat, Request, s_fmt, Event, Env}
use exynos.Scaler.Handle.{Image, Gsc, Side, src_side, dst_side, info_of, set_side, call}
use exynos.Scaler.Settings.{ℤ, Format, gsc_set_format, gsc_set_rotation, gsc_set_addr}
use exynos.Scaler.M2m.{
  size_ok, or_default, set_dst_img, stream_down, stream_up, set_format, set_addr, gsc_m2m_run_core,
  gsc_m2m_wait_frame_done, gsc_convert, gsc_m2m_config, gsc_m2m_run,
}
use exynos.Scaler.Safe.{
  Ready, Ready-logged, Ready-call, Ready-set_side, Ready-tuned, Ready-planes, Ready-dst_img,
  Ready-images, Ready-fill_planes, ready_rules,
}
use exynos.Scaler.Rules.{Keeps-ignore, Keeps-reply, Keeps-read}

some_le : (a n : ℕ) → a ≤ 3 → some a ≡ some n → n ≤ 3
some_le a n h e = grind arith

pub gsc_get_plane_count-le : (pix : PixFmt) (n : ℕ) → gsc_get_plane_count pix ≡ some n → n ≤ 3
unfolding gsc_get_plane_count
gsc_get_plane_count-le rgb32 n h = some_le 1 n omega arith h
gsc_get_plane_count-le bgr32 n h = some_le 1 n omega arith h
gsc_get_plane_count-le rgb24 n h = some_le 1 n omega arith h
gsc_get_plane_count-le rgb565 n h = some_le 1 n omega arith h
gsc_get_plane_count-le rgb555x n h = some_le 1 n omega arith h
gsc_get_plane_count-le rgb444 n h = some_le 1 n omega arith h
gsc_get_plane_count-le yuyv n h = some_le 1 n omega arith h
gsc_get_plane_count-le uyvy n h = some_le 1 n omega arith h
gsc_get_plane_count-le nv12m n h = some_le 2 n omega arith h
gsc_get_plane_count-le nv12mt_16x16 n h = some_le 2 n omega arith h
gsc_get_plane_count-le nv12 n h = some_le 2 n omega arith h
gsc_get_plane_count-le nv21 n h = some_le 2 n omega arith h
gsc_get_plane_count-le nv21m n h = some_le 2 n omega arith h
gsc_get_plane_count-le nv16 n h = some_le 2 n omega arith h
gsc_get_plane_count-le nv61 n h = some_le 2 n omega arith h
gsc_get_plane_count-le yvu420m n h = some_le 3 n omega arith h
gsc_get_plane_count-le yuv422p n h = some_le 3 n omega arith h
gsc_get_plane_count-le yuv420m n h = some_le 3 n omega arith h
gsc_get_plane_count-le unmatched n h = grind arith

module _ {mode : ℕ} (env : Env) where
  stream_down-keeps : (side : Side) → Keeps (Ready mode) (stream_down env side)
  unfolding stream_down
  stream_down-keeps side = search (ready_rules, Ready-tuned)

  stream_up-keeps : (side : Side) → Keeps (Ready mode) (stream_up env side)
  unfolding stream_up
  stream_up-keeps side = search (ready_rules, Ready-tuned)

  planes-keeps :
      (side : Side) (n : ℕ)
      → n ≤ 3
      → Keeps (Ready mode) (set_side side (λ j. record j { num_planes = n }))
  planes-keeps src_side n h = Ready-set_side src_side _ (λ i p. (h, p.1))
  planes-keeps dst_side n h = Ready-set_side dst_side _ (λ i p. h)

  next :
      {B : Type 0} (r : Request) (k : ℕ → Gsc B)
      → ((a : ℕ) → Keeps (Ready mode) (k a))
      → Keeps (Ready mode) (call env r >>= k)
  next r k h = Keeps-bind _ _ (Ready-call env r) h

  set_format-keeps :
      (side : Side)
      → ((log : List Event) (fd : Fd) (type : BufType) (f : PixFormat) (n : ℕ)
          → env.answer log (s_fmt fd type f) ≡ some n
          → n ≤ 3)
      → Keeps (Ready mode) (set_format env side)
  unfolding set_format
  set_format-keeps side left = Keeps-bind _ _ (Keeps-gets _) (λ h.
      Keeps-option (gsc_get_plane_count (info_of side h).v4l2_colorformat) _ _ (λ e. Keeps-fail)
        (λ planes e. Keeps-bind _ _ (stream_down-keeps side) (λ _. next _ _ (λ _. next _ _ (λ _.
          next _ _ (λ _.
            Keeps-bind _ _ (planes-keeps side planes (gsc_get_plane_count-le _ planes e)) (λ _.
              Keeps-reply env _ _ (Ready-logged _) (λ log v answered.
                Keeps-bind _ _ (planes-keeps side v (left log _ _ _ v answered))
                  (λ _. search ready_rules)))))))))

  set_addr-keeps : (side : Side) → Keeps (Ready mode) (set_addr env side)
  unfolding set_addr
  set_addr-keeps side = Keeps-read _ _ (λ s p.
      let i = info_of side s.handle in
      Keeps-option (gsc_get_plane_size env.align i.width i.height i.v4l2_colorformat) _ _
        (λ e. Keeps-fail)
        (λ z e.
          Keeps-bind _ _ (Ready-fill_planes false _ z _ (Ready-planes side s p))
            (λ _. search ready_rules)))

  eq_type-keeps :
      Keeps
        (Ready mode)
        (set_dst_img (λ i. record i { rgb_csc_eq_type = or_default i.rgb_csc_eq_type }))
  eq_type-keeps = Ready-dst_img _ (λ i. refl)

  pub type-keeps :
      Keeps (Ready mode) (set_dst_img (λ i. record i { rgb_csc_type = or_default i.rgb_csc_type }))
  type-keeps = Ready-dst_img _ (λ i. refl)

  pub run_core-keeps :
      ((log : List Event) (fd : Fd) (type : BufType) (f : PixFormat) (n : ℕ)
        → env.answer log (s_fmt fd type f) ≡ some n
        → n ≤ 3)
      → Keeps (Ready mode) (gsc_m2m_run_core env)
  unfolding gsc_m2m_run_core
  run_core-keeps left = Keeps-bind _ _ (Keeps-gets _) (λ h.
      Keeps-if (not (size_ok h.src && size_ok h.dst)) _ _ (λ e. Keeps-fail)
        (λ e. Keeps-bind _ _ (set_format-keeps src_side left) (λ _.
          Keeps-bind _ _ (set_format-keeps dst_side left) (λ _.
            Keeps-bind _ _ (set_addr-keeps src_side) (λ _.
              Keeps-bind _ _ (set_addr-keeps dst_side) (λ _. Keeps-bind _ _ eq_type-keeps (λ _.
                next _ _ (λ _. Keeps-bind _ _ type-keeps (λ _. next _ _ (λ _.
                  Keeps-bind _ _ (stream_up-keeps src_side)
                    (λ _. stream_up-keeps dst_side)))))))))))

  pub wait-keeps : Keeps (Ready mode) (gsc_m2m_wait_frame_done env)
  unfolding gsc_m2m_wait_frame_done
  wait-keeps = search (ready_rules, stream_down-keeps) depth 16

  pub convert-keeps :
      ((log : List Event) (fd : Fd) (type : BufType) (f : PixFormat) (n : ℕ)
        → env.answer log (s_fmt fd type f) ≡ some n
        → n ≤ 3)
      → Keeps (Ready mode) (gsc_convert env)
  unfolding gsc_convert
  convert-keeps left = Keeps-bind _ _ (run_core-keeps left) (λ _. wait-keeps)

  pub set_format_of-keeps : (side : Side) (f : Format) → Keeps (Ready mode) (gsc_set_format side f)
  unfolding gsc_set_format
  set_format_of-keeps side f = Ready-tuned side _ (λ i. refl) (λ i. refl)

  pub set_addr_of-keeps : (side : Side) (a b c : ℕ) → Keeps (Ready mode) (gsc_set_addr side a b c)
  unfolding gsc_set_addr
  set_addr_of-keeps side a b c = Ready-tuned side _ (λ i. refl) (λ i. refl)

  pub set_rotation-keeps : (r : ℤ) (a b : ℕ) → Keeps (Ready mode) (gsc_set_rotation r a b)
  unfolding gsc_set_rotation
  set_rotation-keeps r a b = search (ready_rules, Ready-tuned)

  pub m2m_run-keeps :
      (src dst : Image)
      → ((log : List Event) (fd : Fd) (type : BufType) (f : PixFormat) (n : ℕ)
          → env.answer log (s_fmt fd type f) ≡ some n
          → n ≤ 3)
      → Keeps (Ready mode) (gsc_m2m_run env src dst)
  unfolding gsc_m2m_run
  m2m_run-keeps src dst left =
      Keeps-bind _ _ (set_addr_of-keeps src_side _ _ _)
        (λ _. Keeps-bind _ _ (set_addr_of-keeps dst_side _ _ _) (λ _. run_core-keeps left))

  pub m2m_config-keeps :
      (src dst : Image) → 1 ≤ dst.req_buf_cnt → Keeps (Ready mode) (gsc_m2m_config env src dst)
  unfolding gsc_m2m_config
  m2m_config-keeps src dst h = Keeps-bind _ _ (Ready-images src dst h) (λ _.
      Keeps-bind _ _ (Keeps-ignore _ (set_rotation-keeps _ _ _)) (λ _.
        Keeps-bind _ _ (set_format_of-keeps src_side _) (λ _. set_format_of-keeps dst_side _)))
