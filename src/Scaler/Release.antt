-- ===== src/Scaler/Release.antt =====
-- Closing the devices of a path in exynos_gscaler.c.
use exynos.Common.{ℕ, zero, suc, Bool, false, not, Option, none, some, if◌then◌else◌}
use exynos.Common.Act.{pure, ignore, ◌>>=◌, ◌>>◌}
use exynos.Scaler.Driver.{Fd, Request, media_close, setup_link, close, streamoff, Env}
use exynos.Scaler.Handle.{
  Entity, Handle, Op, Side, src_side, dst_side, info_of, attempt, set_handle, set_side, set_src,
  set_dst, get_handle,
}
use exynos.Scaler.Stop.{gsc_out_stop, gsc_cap_stop}

-- A request whose failure is only logged.
abbrev pub attempt_ : Env → Request → Op
attempt_ env r = do attempt env r; pure tt

unfoldable pub repeat : ℕ → Op → Op
repeat zero m = pure tt
repeat (suc n) m = do m; repeat n m

-- `if (fd > 0) close(fd)`.
unfoldable pub close_fd : Env → Fd → Op
close_fd env none = pure tt
close_fd env (some zero) = pure tt
close_fd env (some (suc n)) = attempt_ env (close (suc n))

unfoldable pub close_entity : Env → Option Entity → Op
close_entity env none = pure tt
close_entity env (some e) = close_fd env e.fd

-- One call for each link that leads from one entity to the other; failures are only logged.
unfoldable pub link_down : Env → Option Entity → Option Entity → Op
link_down env (some from) (some to) =
    repeat (env.links from.name from.name to.name)
      (attempt_ env (setup_link from.name to.name false))
link_down env a b = pure tt

-- The end that both paths share, after the unlinking.
unfoldable pub release : Env → Op
release env = do
  h ← get_handle
  close_entity env h.gsc_vd_entity
  close_entity env h.gsc_sd_entity
  close_entity env h.sink_sd_entity
  if h.media then attempt_ env media_close else pure tt
  set_handle (λ g. record g {
    media = false;
    gsc_sd_entity = none;
    gsc_vd_entity = none;
    sink_sd_entity = none;
  })

abbrev complete : Handle → Bool
complete h = elim h.gsc_sd_entity [
  | none ↦ false
  | some a ↦ elim h.gsc_vd_entity [
    | none ↦ false
    | some b ↦ elim h.sink_sd_entity [ none ↦ false | some c ↦ h.media ]
  ]
]

unfoldable pub gsc_out_destroy : Env → Op
gsc_out_destroy env = do
  h ← get_handle
  if not h.src.stream_on
      then pure tt
      else do ignore (gsc_out_stop env); set_src (λ i. record i { stream_on = false })
  if complete h then link_down env h.gsc_sd_entity h.sink_sd_entity else pure tt
  release env

unfoldable pub gsc_cap_destroy : Env → Op
gsc_cap_destroy env = do
  h ← get_handle
  if not h.dst.stream_on
      then pure tt
      else do ignore (gsc_cap_stop env); set_dst (λ i. record i { stream_on = false })
  if complete h then link_down env h.sink_sd_entity h.gsc_sd_entity else pure tt
  release env

unfoldable pub stream_end : Env → Side → Op
stream_end env side = do
  h ← get_handle
  let i = info_of side h
  if not i.stream_on then pure tt else do
    attempt env (streamoff h.gsc_fd i.buf_type)
    set_side side (λ j. record j { stream_on = false })

unfoldable pub gsc_m2m_destroy : Env → Op
gsc_m2m_destroy env = do
  stream_end env src_side
  stream_end env dst_side
  h ← get_handle
  close_fd env h.gsc_fd
  set_handle (λ g. record g { gsc_fd = some 0 })
