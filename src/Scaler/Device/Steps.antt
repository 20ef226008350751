-- ===== src/Scaler/Device/Steps.antt =====
-- The memory-to-memory operations keep the flags true to the device.
use exynos.Common.{ℕ, zero, suc, Bool, true, false, not, some, refl, ap}
use exynos.Common.Act.Stays.{
  Stays, Stays-pure, Stays-fail, Stays-gets, Stays-if, Stays-bind, Stays-read, Stays-option,
  Stays-ignore, stays_rules,
}
use exynos.Scaler.Format.{gsc_get_plane_count, gsc_get_plane_size, Sizes}
use exynos.Scaler.Driver.{Env}
use exynos.Scaler.Handle.{Image, Info, Side, src_side, dst_side, info_of}
use exynos.Scaler.Settings.{
  ℤ, pos, negsuc, Format, gsc_set_format, gsc_set_rotation, gsc_set_addr, gsc_set_out_mode,
  gsc_set_ctrl,
}
use exynos.Scaler.M2m.{
  or_default, set_dst_img, stream_down, stream_up, set_format, set_addr, fill_planes,
  gsc_m2m_run_core, gsc_m2m_wait_frame_done, gsc_convert, gsc_m2m_config, gsc_m2m_run,
}
use exynos.Scaler.Device.{Tracks}
use exynos.Scaler.Device.Rules.{Tracks-call, Tracks-tuned, Tracks-other, Tracks-switch, type-side}

module _ (env : Env) where
  down-Stays : (side : Side) → Stays Tracks (stream_down env side)
  unfolding stream_down
  down-Stays side = Stays-read _ _ (λ s p.
      Stays-if (not (info_of side s.handle).stream_on) _ _ (Stays-pure tt)
        (Tracks-switch env side _ false (ap (λ t. some (t, false)) (type-side side s p))))

  up-Stays : (side : Side) → Stays Tracks (stream_up env side)
  unfolding stream_up
  up-Stays side = Stays-read _ _ (λ s p.
      Stays-if (info_of side s.handle).stream_on _ _ (Stays-pure tt)
        (Tracks-switch env side _ true (ap (λ t. some (t, true)) (type-side side s p))))

  set_format-Stays : (side : Side) → Stays Tracks (set_format env side)
  unfolding set_format
  set_format-Stays side = Stays-bind _ _ (Stays-gets _) (λ h.
      Stays-option (gsc_get_plane_count (info_of side h).v4l2_colorformat) _ _ Stays-fail
        (λ planes. search (stays_rules, down-Stays, Tracks-call, Tracks-tuned) depth 30))

  fill-Stays : (used : Bool) (i : Info) (z : Sizes) (n : ℕ) → Stays Tracks (fill_planes used i z n)
  unfolding fill_planes
  fill-Stays used i z zero = Stays-pure _
  fill-Stays used i z (suc zero) = Stays-pure _
  fill-Stays used i z (suc (suc zero)) = Stays-pure _
  fill-Stays used i z (suc (suc (suc zero))) = Stays-pure _
  fill-Stays used i z (suc (suc (suc (suc n)))) = record { at = λ s p. p }

  set_addr-Stays : (side : Side) → Stays Tracks (set_addr env side)
  unfolding set_addr
  set_addr-Stays side = Stays-bind _ _ (Stays-gets _) (λ h.
      let i = info_of side h in
      Stays-option (gsc_get_plane_size env.align i.width i.height i.v4l2_colorformat) _ _ Stays-fail
        (λ z. search (stays_rules, fill-Stays, Tracks-call) depth 10))

  img-Stays : (f : Image → Image) → Stays Tracks (set_dst_img f)
  img-Stays f = Tracks-other _ (λ h. refl) (λ h. refl) (λ h. refl)

  eq_type-Stays :
      Stays Tracks (set_dst_img (λ i. record i { rgb_csc_eq_type = or_default i.rgb_csc_eq_type }))
  eq_type-Stays = img-Stays _

  type-Stays :
      Stays Tracks (set_dst_img (λ i. record i { rgb_csc_type = or_default i.rgb_csc_type }))
  type-Stays = img-Stays _

  run_core-Stays : Stays Tracks (gsc_m2m_run_core env)
  unfolding gsc_m2m_run_core
  run_core-Stays =
      search
        (
          stays_rules, set_format-Stays, set_addr-Stays, eq_type-Stays, type-Stays, Tracks-call,
          up-Stays,
        )
        depth 20

  pub wait-Stays : Stays Tracks (gsc_m2m_wait_frame_done env)
  unfolding gsc_m2m_wait_frame_done
  wait-Stays = search (stays_rules, Tracks-call, down-Stays) depth 16

  pub convert-Stays : Stays Tracks (gsc_convert env)
  unfolding gsc_convert
  convert-Stays = Stays-bind _ _ run_core-Stays (λ _. wait-Stays)

  pub set_format_of-Stays : (side : Side) (f : Format) → Stays Tracks (gsc_set_format side f)
  unfolding gsc_set_format
  set_format_of-Stays side f = Tracks-tuned side _ (λ i. refl) (λ i. refl)

  pub set_addr_of-Stays : (side : Side) (a b c : ℕ) → Stays Tracks (gsc_set_addr side a b c)
  unfolding gsc_set_addr
  set_addr_of-Stays side a b c = Tracks-tuned side _ (λ i. refl) (λ i. refl)

  pub set_rotation-Stays : (r : ℤ) (a b : ℕ) → Stays Tracks (gsc_set_rotation r a b)
  unfolding gsc_set_rotation
  set_rotation-Stays r a b = search (stays_rules, Tracks-tuned)

  pub set_out_mode-Stays : (m : ℤ) → Stays Tracks (gsc_set_out_mode m)
  unfolding gsc_set_out_mode
  set_out_mode-Stays (negsuc n) = Stays-fail
  set_out_mode-Stays (pos n) =
      Stays-if _ _ _ Stays-fail (Tracks-other _ (λ h. refl) (λ h. refl) (λ h. refl))

  pub set_ctrl-Stays : (i : ℕ) (m : ℤ) → Stays Tracks (gsc_set_ctrl i m)
  unfolding gsc_set_ctrl
  set_ctrl-Stays i m = search (stays_rules, set_out_mode-Stays)

  pub m2m_run-Stays : (src dst : Image) → Stays Tracks (gsc_m2m_run env src dst)
  unfolding gsc_m2m_run
  m2m_run-Stays src dst = search (stays_rules, set_addr_of-Stays, run_core-Stays) depth 10

  pub m2m_config-Stays : (src dst : Image) → Stays Tracks (gsc_m2m_config env src dst)
  unfolding gsc_m2m_config
  m2m_config-Stays src dst =
      Stays-bind _ _ (Tracks-other _ (λ h. refl) (λ h. refl) (λ h. refl)) (λ _.
        Stays-bind _ _ (Stays-ignore _ (set_rotation-Stays _ _ _)) (λ _.
          Stays-bind _ _ (set_format_of-Stays src_side _) (λ _. set_format_of-Stays dst_side _)))
