-- ===== src/Edid/Timings/Interlaced.antt =====
-- The format with 1250 lines in IsContainVideoDTD.
use exynos.Common.{◌≡◌, false, Ensures, arith}
use exynos.Edid.Params.{v1920x1080i_50hz_1250}
use exynos.Edid.Tables.{params_of}
use exynos.Edid.Timings.{Timing, same_timing}

-- No descriptor with the 540 active lines of a field matches the interlaced format with 1250 lines: its row has the VIC 39,
-- which the code compares with 24, the number of the format, so that it wants 539 lines.
pub same_timing-1250 :
    (t : Timing)
    → t.vactive ≡ 540
    → Ensures (λ p. same_timing p t ≡ false) (params_of v1920x1080i_50hz_1250)
unfolding params_of same_timing
same_timing-1250 t h = ground (arith, h)
