-- ===== src/Encoder/Tests.antt =====
-- Runs of the encoder's buffers, and the theorems at concrete inputs.
use exynos.Common.{
  Option, none, List, zero, suc, ◌^◌, ◌<◌, arith, ℕ, ◌≡◌, refl, Bool, true, false, some, [], ◌∷◌,
  ltb, ◌==◌, if◌then◌else◌, ◌*◌,
}
use exynos.Common.Act.{ok, err}
use exynos.Decoder.Driver.{qbuf, dqbuf, Plane, Buffer, Env, Port, unknown, frame_i, progressive}
use exynos.Decoder.Buffers.{plane_count}
use exynos.Decoder.Pool.{queued_at}
use exynos.Decoder.Held.{Agrees, holds}
use exynos.Decoder.Setup.{no_array, Context, Extent, System}
use exynos.Decoder.Setup.{api_fail}
use exynos.Encoder.Params.{CommonParam, EncParam, Kernel, Mpeg4Param, mpeg4, skip_buf_limit}
use exynos.Encoder.Controls.{Entry}
use exynos.Encoder.Settings.{array_from, entries_of, set_enc_param}
use exynos.Encoder.Initialised.{
  all_written, indices, is_complete, written_indices, set_enc_param-writes,
}
use exynos.Encoder.Buffers.{enqueue_all_outbuf}
use exynos.Encoder.Setup.{LeavesFor, setup_port, setup_port-Leaves}
use exynos.Encoder.Free.{free_count}
use exynos.Encoder.All.{enqueue_all_outbuf-queues}

abbrev plane : ℕ → Plane
plane a = record { addr = a; alloc_size = 4096; data_size = 0; fd = 7 }

abbrev buffer : ℕ → Bool → Buffer
buffer a q = record {
  plane0 = plane a;
  plane1 = plane 0;
  queued = q;
  registered = true;
  private = 0;
  display_status = unknown;
  frame_type = frame_i;
  interlaced = false;
}

abbrev driver : Env
driver = record {
  answer = λ log r.
      some (record { index = 0; flags = 0; field = progressive; value = 1; bytesused = 0 });
  use_dma_buf = true;
  flag_key = 8;
  flag_p = 16;
  flag_b = 32;
  garbage = 0;
  is_input = false;
  planes = 1;
}

-- The driver has the second buffer already, so that the third round finds none.
abbrev port : Port
port = record {
  bufs = buffer 100 false ∷ buffer 200 true ∷ buffer 300 false ∷ [];
  stream_on = false;
  shared = true;
  log =
      record {
        request =
            qbuf 1 true (record { target = some 7; length = some 4096; bytesused = none } ∷ []);
        answer = driver.answer [] dqbuf;
      }
      ∷ [];
}

port-Agrees : Agrees port
unfolding holds queued_at
port-Agrees = record { flag = second_queued }
  where
    second_queued : (i : ℕ) → queued_at i port.bufs ≡ holds i port.log
    second_queued zero = refl
    second_queued (suc zero) = refl
    second_queued (suc (suc zero)) = refl
    second_queued (suc (suc (suc i))) = refl

enqueue_all_outbuf-queues_example :
    ((i : ℕ) → holds i (enqueue_all_outbuf driver port).1.log ≡ ltb i (plane_count port.bufs))
    × ((enqueue_all_outbuf driver port).0
        ≡ (if ltb (free_count port.bufs) (plane_count port.bufs) then err else ok tt))
enqueue_all_outbuf-queues_example =
    enqueue_all_outbuf-queues driver port (λ log i own planes. (_, refl)) port-Agrees

abbrev extent : ℕ → Extent
extent j = record { length = 4096; offset = j * 4096 }

-- The driver sets three buffers whatever is asked; the second plane of a buffer cannot be mapped.
abbrev system : System
system = record {
  request = λ log n shared. some 3;
  query = λ log i. some extent;
  map_to = λ log e. if e.offset == 0 then 1000 else 4294967295;
  has_memory = λ log n. true;
  map_failed = 4294967295;
  is_input = true;
  planes = 2;
}

abbrev fresh : Context
fresh = record { array = no_array; count = 0; shared = false; log = [] }

setup_port-Leaves_example : LeavesFor (some 3) no_array false (setup_port system 2 fresh)
setup_port-Leaves_example = setup_port-Leaves system 2 fresh (λ got e. few got (cc e))
  where
    few : (got : ℕ) → 3 ≡ got → 88 * got < 2 ^ 32
    few got e = omega arith

abbrev kernel : Kernel
kernel = record {
  video_header_mode_separate = 0;
  video_h264_vui_sar_idc_unspecified = 0;
  video_h264_hierarchical_coding_b = 0;
  video_h264_sei_fp_type_side_by_side = 0;
  video_h264_fmo_map_type_interleaved_slices = 0;
  video_h264_fmo_change_dir_right = 0;
  mfc51_video_frame_skip_mode_level_limit = 0;
  mfc51_video_frame_skip_mode_buf_limit = 0;
  mfc51_video_frame_skip_mode_disabled = 0;
}

-- Five is no slice mode.
abbrev common : CommonParam
common = record {
  source_width = 0;
  source_height = 0;
  idr_period = 0;
  slice_mode = 5;
  random_intra_mb_refresh = 0;
  enable_frm_rate_control = 0;
  enable_mb_rate_control = 0;
  bitrate = 64000;
  frame_qp = 0;
  frame_qp_p = 0;
  qs_code_max = 0;
  qs_code_min = 0;
  cbr_period_rf = 0;
  pad_control_on = 0;
  luma_pad_val = 0;
  cb_pad_val = 0;
  cr_pad_val = 0;
  frame_map = 0;
}

abbrev mpeg4_param : Mpeg4Param
mpeg4_param = record {
  profile_idc = 1;
  level_idc = 0;
  frame_qp_b = 0;
  time_increament_res = 0;
  vop_time_increament = 0;
  slice_argument = 0;
  number_b_frames = 0;
  disable_qpel_me = 0;
}

abbrev params : EncParam
params = record { frame_skip = skip_buf_limit; common = common; codec = mpeg4 mpeg4_param }

abbrev writes : Option (List Entry × ℕ) → List Entry
writes none = []
writes (some (ws, n)) = ws

set_enc_param-writes_example :
    (indices (writes (entries_of kernel params)) ≡ written_indices 26 (is_complete params))
    × (all_written (array_from (writes (entries_of kernel params)) 26 0) ≡ is_complete params)
    × (set_enc_param kernel all_written params
        ≡ (if is_complete params then none else some api_fail))
set_enc_param-writes_example =
    set_enc_param-writes kernel params (writes (entries_of kernel params)) 26 refl
