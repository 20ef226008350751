-- ===== src/Edid/Tests.antt =====
-- The EDID library on the sample sink: 720p60, 1080i60, 1080p60, linear PCM, deep colour, xvYCC.
mod Queries
mod Service
use exynos.Common.{
  ℕ, zero, suc, ◌+◌, ◌-◌, ◌*◌, ◌/◌, ◌%◌, ◌≤◌, ◌<◌, ◌≡◌, ◌≢◌, ◌↔◌, refl, Bool, true, false, Run,
  done, fault, hang, Ensures, Ends, Option, none, some, List, [], ◌∷◌, ◌++◌, tabulate, arith, ◌==◌,
}
use mathlib.Core.Path.{subst}
use exynos.Ddc
use exynos.Edid.Sample.{sink, base_block, extension_block}
use exynos.Edid.State.{
  State, initial, edid_open, edid_read, num_of_vic_for_3d, edid_valid, read_edid_block, read_rest,
  read_extensions, check_block_map,
}
use exynos.Edid.Checksum.{calc_checksum, checksum_loop}
use exynos.Edid.Checksum.Sum.{sum_range, calc_checksum_lem, checksum_loop-endless}
use exynos.Edid.Loaded.{IsValid}
use exynos.Edid.Loaded.Read.{Read, edid_read-Read}
use exynos.Edid.Blocks.{is_contain_vic}
use exynos.Edid.Blocks.Encoding.{DataBlock, IsDataBlock, Layout, encode}
use exynos.Edid.Blocks.Search.{
  offers_vic, has_code, is_hdmi, hdmi_offset, is_contain_vic-offers_vic,
}

-- The library when the device has been opened.
abbrev pub opened : State
opened = record {
  bytes = none;
  extensions = 0;
  vics = tabulate num_of_vic_for_3d 0 (λ _. 0);
  ddc = record { fd = some 3; ref_cnt = 1; clock = 1 };
}

opened_test : edid_open sink initial ≡ (true, opened)
unfolding edid_open Ddc.ddc_open
opened_test = refl

-- And when the EDID has been read.
abbrev pub loaded : State
loaded = record opened {
  bytes = some (base_block ++ extension_block);
  extensions = 1;
  ddc = record { fd = some 3; ref_cnt = 1; clock = 4 };
}

edid_read_test : edid_read sink opened ≡ done (true, loaded)
unfolding edid_read edid_valid read_edid_block Ddc.eddc_read calc_checksum checksum_loop
    Ddc.segment_msgs read_rest read_extensions check_block_map
edid_read_test = refl

pub loaded-IsValid : IsValid loaded
loaded-IsValid = (subst (Ensures Read) edid_read_test (edid_read-Read sink opened tt)).0

calc_checksum_lem_example :
    calc_checksum base_block 128 ≡ done (sum_range base_block 0 128 % 256 == 0)
calc_checksum_lem_example = calc_checksum_lem base_block 128 (omega arith) (omega arith)

checksum_loop-endless_example : checksum_loop 1000 (base_block ++ extension_block) 256 0 0 ≢ done 0
checksum_loop-endless_example =
    checksum_loop-endless 1000 (base_block ++ extension_block) 256 0 0 0 (omega arith) (omega arith)

abbrev video_block : DataBlock
video_block = record { tag = 2; payload = 144 ∷ 4 ∷ 5 ∷ 3 ∷ [] }

abbrev audio_block : DataBlock
audio_block = record { tag = 1; payload = 15 ∷ 127 ∷ 7 ∷ [] }

abbrev vendor_block : DataBlock
vendor_block = record { tag = 3; payload = 3 ∷ 12 ∷ 0 ∷ 16 ∷ 0 ∷ 184 ∷ 45 ∷ 0 ∷ [] }

abbrev colorimetry_block : DataBlock
colorimetry_block = record { tag = 7; payload = 5 ∷ 3 ∷ 1 ∷ [] }

abbrev collection : List DataBlock
collection = video_block ∷ audio_block ∷ vendor_block ∷ colorimetry_block ∷ []

loaded-Layout : Layout loaded 1 collection
loaded-Layout = record {
  before = base_block ++ (2 ∷ 3 ∷ 26 ∷ 240 ∷ []);
  after = 1 ∷ 29 ∷ 0 ∷ 114 ∷ 81 ∷ 208 ∷ 30 ∷ 32 ∷ tabulate 93 0 (λ _. 0) ++ (18 ∷ []);
  bytes_eq = refl;
  before_size = refl;
  dtd = refl;
  short = omega arith;
  room = omega arith;
  blocks = (
    record {
      tag_fits = omega arith;
      payload_fits = omega arith;
      small = (omega arith, (omega arith, (omega arith, (omega arith, tt))));
    },
    (
      record {
        tag_fits = omega arith;
        payload_fits = omega arith;
        small = (omega arith, (omega arith, (omega arith, tt)));
      },
      (
        record {
          tag_fits = omega arith;
          payload_fits = omega arith;
          small = (
            omega arith,
            (
              omega arith,
              (
                omega arith,
                (omega arith, (omega arith, (omega arith, (omega arith, (omega arith, tt))))),
              ),
            ),
          );
        },
        (
          record {
            tag_fits = omega arith;
            payload_fits = omega arith;
            small = (omega arith, (omega arith, (omega arith, tt)));
          },
          tt,
        ),
      ),
    ),
  );
}

is_contain_vic-offers_vic_example : is_contain_vic loaded 1 4 ≡ done (offers_vic 4 collection)
is_contain_vic-offers_vic_example =
    is_contain_vic-offers_vic loaded 4 1 collection (omega arith) loaded-Layout

-- The code and the offset that the sample has.
offers_test : (offers_vic 4 collection ≡ true) × (hdmi_offset 132 collection ≡ 141)
unfolding offers_vic has_code hdmi_offset is_hdmi
offers_test = (refl, refl)
