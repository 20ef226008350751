-- ===== src/Scaler/Create.antt =====
-- Opening the devices of a path in exynos_gscaler.c.
use exynos.Common.{
  ℕ, zero, suc, ◌+◌, ◌-◌, true, ◌&&◌, ◌||◌, Option, none, some, ◌==◌, leb, ltb, if◌then◌else◌,
}
use exynos.Common.Act.{pure, fail, rescue, ◌>>=◌, ◌>>◌}
use exynos.Scaler.Driver.{
  m2m_ctx_num, EntityName, fimd_window, mixer, fimd, out_video, out_subdev, cap_video, cap_subdev,
  open_fb, open_node, open_entity, media_open, get_entity, setup_link, querycap, close, g_ctrl, Env,
}
use exynos.Scaler.Handle.{Entity, Handle, Gsc, Op, call, ask, set_handle, get_handle}
use exynos.Scaler.Settings.{ℤ, pos, negsuc}
use exynos.Scaler.M2m.{call_}
use exynos.Scaler.Release.{attempt_, close_fd, repeat, gsc_out_destroy, gsc_cap_destroy}

-- Links are made until one fails.
unfoldable pub link_up : Env → EntityName → EntityName → Op
link_up env from to = repeat (env.links from from to) (call_ env (setup_link from to true))

-- The fields that hold the three entities of a path.
pub data Slot : Type 0 where
  sd_slot vd_slot sink_slot : Slot

unfoldable pub put : Slot → Entity → Handle → Handle
put sd_slot e h = record h { gsc_sd_entity = some e }
put vd_slot e h = record h { gsc_vd_entity = some e }
put sink_slot e h = record h { sink_sd_entity = some e }

unfoldable pub find_entity : Env → Slot → EntityName → Op
find_entity env slot name = do
  call env (get_entity name)
  set_handle (put slot record { name = name; fd = env.entity_fd name })

abbrev or_fail : Option ℕ → Op
or_fail none = fail
or_fail (some fd) = pure tt

-- The descriptor is stored before it is tested.
unfoldable pub open_in : Env → Slot → EntityName → Op
open_in env slot name = do
  fd ← ask env (open_entity name)
  set_handle (put slot record { name = name; fd = fd })
  or_fail fd

-- The device node is opened and asked for what it can do.
unfoldable pub open_video : Env → EntityName → Op
open_video env name = do
  open_in env vd_slot name
  h ← get_handle
  elim h.gsc_vd_entity [ none ↦ fail | some e ↦ call_ env (querycap e.fd) ]

unfoldable pub sink_name : ℕ → ℕ → EntityName
sink_name out_mode dev = if out_mode == 1 then fimd_window dev else mixer 0

unfoldable pub gsc_out_create : Env → ℕ → ℤ → Op
gsc_out_create env dev (negsuc n) = fail
gsc_out_create env dev (pos out_mode) = if ltb out_mode 1 || leb 5 out_mode then fail else do
  set_handle (λ h. record h { out_mode = out_mode })
  if out_mode == 1 && ltb 1 dev then fail else do
    call env (media_open 0)
    set_handle (λ h. record h { media = true })
    rescue (gsc_out_destroy env) (do
      find_entity env sink_slot (sink_name out_mode dev)
      open_in env sink_slot (sink_name out_mode dev)
      find_entity env vd_slot (out_video dev)
      find_entity env sd_slot (out_subdev dev)
      open_in env sd_slot (out_subdev dev))
    link_up env (out_video dev) (out_subdev dev)
    link_up env (out_subdev dev) (sink_name out_mode dev)
    rescue (gsc_out_destroy env) (open_video env (out_video dev))

-- The first frame buffer that can be interrupted; 0 counts as a failure.
unfoldable pub open_frame_buffer : Env → Op
open_frame_buffer env = do
  fd ← ask env open_fb
  set_handle (λ h. record h { fb_fd = fd })
  elim fd [ none ↦ fail | some n ↦ if n == 0 then fail else pure tt ]

unfoldable pub gsc_cap_create : Env → ℕ → Op
gsc_cap_create env dev = do
  call env (media_open 1)
  set_handle (λ h. record h { media = true })
  rescue (gsc_cap_destroy env) (do
    find_entity env sink_slot (fimd 1)
    open_in env sink_slot (fimd 1)
    find_entity env vd_slot (cap_video dev)
    find_entity env sd_slot (cap_subdev dev)
    open_in env sd_slot (cap_subdev dev))
  link_up env (cap_subdev dev) (cap_video dev)
  link_up env (fimd 1) (cap_subdev dev)
  rescue (gsc_cap_destroy env) (do open_video env (cap_video dev); open_frame_buffer env)

abbrev gsc_hw : ℕ
gsc_hw = 4

abbrev max_ctx : ℕ
max_ctx = 100

-- `none` is the `default` of the switch.
unfoldable pub m2m_node : ℕ → Option ℕ
m2m_node zero = some 23
m2m_node (suc zero) = some 26
m2m_node (suc (suc zero)) = some 29
m2m_node (suc (suc (suc zero))) = some 32
m2m_node (suc (suc (suc (suc n)))) = none

unfoldable pub gsc_m2m_create : Env → Option ℕ → Gsc ℕ
gsc_m2m_create env none = fail
gsc_m2m_create env (some dev) = elim (m2m_node dev) [
  | none ↦ fail
  | some node ↦ do
    fd ← call env (open_node node)
    rescue (close_fd env (some fd)) (do call env (querycap (some fd)); pure fd)
]

-- The number of contexts of one device. The descriptor stays open when it cannot be asked.
unfoldable pub ctx_count : Env → ℕ → Gsc ℕ
ctx_count env i = if i == 0 || i == 3 then pure max_ctx else elim (m2m_node i) [
  | none ↦ pure max_ctx
  | some node ↦ do
    opened ← ask env (open_node node)
    elim opened [
      | none ↦ pure max_ctx
      | some fd ↦ do
        count ← ask env (g_ctrl (some fd) m2m_ctx_num)
        elim count [ none ↦ pure max_ctx | some n ↦ do attempt_ env (close fd); pure n ]
    ]
]

-- `cnt[0]` to `cnt[3]`, the loop of i from `i` on.
unfoldable pub ctx_counts : Env → ℕ → ℕ → (ℕ → ℕ) → Gsc (ℕ → ℕ)
ctx_counts env zero i cnt = pure cnt
ctx_counts env (suc n) i cnt = do
  c ← ctx_count env i
  ctx_counts env n (i + 1) (λ j. if j == i then c else cnt j)

-- The loop of `i` from n - 1 down to 0.
unfoldable pub least : (ℕ → ℕ) → ℕ → ℕ → ℕ
least cnt zero idx = idx
least cnt (suc i) idx = least cnt i (if ltb (cnt i) (cnt idx) then i else idx)

-- `none` is -1.
unfoldable pub pick : (ℕ → ℕ) → Option ℕ
unfolding least
pick cnt = let idx = least cnt gsc_hw (gsc_hw - 1) in if cnt idx == max_ctx then none else some idx

unfoldable pub get_gsc_idx : Env → Gsc (Option ℕ)
get_gsc_idx env = do cnt ← ctx_counts env gsc_hw 0 (λ j. 0); pure (pick cnt)

unfoldable pub gsc_find_and_create : Env → Op
gsc_find_and_create env = do
  idx ← get_gsc_idx env
  fd ← gsc_m2m_create env idx
  set_handle (λ h. record h { gsc_fd = some fd })
