-- ===== src/Scaler/Tests.antt =====
-- Runs of the scaler, and its theorems at concrete inputs.
use exynos.Common.{ℕ, ◌*◌, ◌<◌, ◌≤◌, ◌≡◌, ◌↔◌, refl, true, none, some, List, [], ◌∷◌, arith}
use exynos.Common.Act.{ok}
use exynos.Common.Act.Keeps.{IsSafe}
use exynos.Common.Act.Good.{Good}
use exynos.Scaler.Format.{rgb32, gsc_get_plane_size, sizes}
use exynos.Scaler.Driver.{out_video, out_subdev, fimd_window, Env}
use exynos.Scaler.Handle.{Image, Entity, Handle, Session}
use exynos.Scaler.Ratio.{gsc_scale_ratio_check}
use exynos.Scaler.Settings.{ℤ, pos, negsuc, gsc_set_rotation, rotate_value_hal_to_gsc}
use exynos.Scaler.Create.{ctx_counts, pick, get_gsc_idx}
use exynos.Scaler.Api.{no_image, blank}
use exynos.Scaler.Client.{ApiCall, run_calls}
use exynos.Scaler.Safe.{Ready}
use exynos.Scaler.Safe.Calls.{run_calls-Ready}
use exynos.Scaler.Device.{is_streaming, Tracks}
use exynos.Scaler.Device.Calls.{run_calls-Tracks}
use exynos.Scaler.Ring.{Frame, held, NeverRequeues, show_frames, AfterFrames}
use exynos.Scaler.Ring.Frames.{count_of, show_frames-AfterFrames}
use exynos.Scaler.Limits.{gsc_scale_ratio_check-m2m}
use exynos.Scaler.Index.{IsLeast, get_gsc_idx-IsLeast}

-- A driver that answers 1 to every request.
abbrev willing : Env
willing = record {
  answer = λ log r. some 1;
  v4l2_pix = λ f. rgb32;
  yuv_planes = λ p. some 1;
  align = λ a b. a;
  links = λ a b c. 1;
  entity_fd = λ n. none;
  flip_h = 1;
  flip_v = 2;
  rot_90 = 4;
  rot_180 = 3;
  rot_270 = 7;
}

abbrev picture : Image
picture = record no_image { w = 1280; h = 720; fw = 1280; fh = 720; req_buf_cnt = 1 }

abbrev video : Entity
video = record { name = out_video 0; fd = some 11 }

abbrev out_handle : Handle
out_handle = record (blank 1) {
  gsc_vd_entity = some video;
  gsc_sd_entity = some record { name = out_subdev 0; fd = some 12 };
  sink_sd_entity = some record { name = fimd_window 0; fd = some 13 };
  out_mode = 1;
  src_img = picture;
  dst_img = picture;
}

abbrev session : Handle → Session
session h = record { handle = h; log = [] }

abbrev show : List ApiCall
show =
    ApiCall.config picture picture
    ∷ ApiCall.run picture picture
    ∷ ApiCall.wait
    ∷ ApiCall.run picture picture
    ∷ ApiCall.wait
    ∷ ApiCall.stop
    ∷ []

abbrev work : List ApiCall
work =
    ApiCall.config picture picture
    ∷ ApiCall.run picture picture
    ∷ ApiCall.wait
    ∷ ApiCall.convert
    ∷ []

at_most_3 : (n : ℕ) → some 1 ≡ some n → n ≤ 3
at_most_3 n e = grind arith

run_calls-Ready_example :
    IsSafe (run_calls willing show (session out_handle)).0
    × Ready 1 (run_calls willing show (session out_handle)).1
run_calls-Ready_example =
    run_calls-Ready willing (λ pix n e. at_most_3 n e) (λ log fd type f n e. at_most_3 n e) show
      (session out_handle)
      (record {
        mode_is = refl;
        vd = λ h. tt;
        sd = λ h. tt;
        sink = λ h. tt;
        src_fit = (omega arith, omega arith);
        dst_fit = omega arith;
        frames = omega arith;
      })
      (omega arith, (tt, (tt, (tt, (tt, (tt, tt))))))

run_calls-Tracks_example : Tracks (run_calls willing work (session (blank 0))).1
unfolding is_streaming
run_calls-Tracks_example =
    run_calls-Tracks willing work (session (blank 0))
      record { mode_is = refl; src_type = refl; dst_type = refl; src_on = refl; dst_on = refl }

abbrev frames : List Frame
frames =
    record { y = 1; u = 2; v = 3 }
    ∷ record { y = 4; u = 5; v = 6 }
    ∷ record { y = 7; u = 8; v = 9 }
    ∷ []

few : count_of frames 0 < 2147483648
unfolding count_of
few = omega arith

show_frames-AfterFrames_example :
    Good
      (λ _. AfterFrames video picture (count_of frames 0))
      (show_frames willing frames (session out_handle))
unfolding held NeverRequeues gsc_get_plane_size
show_frames-AfterFrames_example =
    show_frames-AfterFrames willing (λ log r. 1) video picture (sizes (1280 * 720 * 4) 0 0)
      (λ log r. refl) (omega arith) refl frames 0 (session out_handle) few
      record {
        device = refl;
        image = refl;
        index = refl;
        count = refl;
        streams = refl;
        holds = refl;
        sound = tt;
      }

abbrev m2m_handle : Handle
m2m_handle = record (blank 0) { src_img = picture; dst_img = record picture { w = 640; h = 360 } }

gsc_scale_ratio_check-m2m_example :
    (gsc_scale_ratio_check m2m_handle ≡ true)
    ↔ (((640 ≤ 1280 * 8) × (360 ≤ 720 * 8)) × ((1280 ≤ 640 * 16) × (720 ≤ 360 * 16)))
gsc_scale_ratio_check-m2m_example =
    gsc_scale_ratio_check-m2m m2m_handle refl (omega arith, omega arith) (omega arith, omega arith)

get_gsc_idx-IsLeast_example :
    (cnt : ℕ → ℕ) × ((ctx_counts willing 4 0 (λ j. 0) (session (blank 0))).0 ≡ ok cnt)
    × ((get_gsc_idx willing (session (blank 0))).0 ≡ ok (pick cnt))
    × IsLeast cnt (pick cnt)
get_gsc_idx-IsLeast_example = get_gsc_idx-IsLeast willing (session (blank 0))

-- A turn to the left is stored as one to the right.
left_turn : (gsc_set_rotation (negsuc 89) 0 0 (session (blank 0))).1.handle.dst.rotation ≡ 90
unfolding gsc_set_rotation exynos.Scaler.Settings.rem exynos.Scaler.Settings.neg
    exynos.Scaler.Settings.magnitude exynos.Scaler.Handle.set_info
left_turn = refl
