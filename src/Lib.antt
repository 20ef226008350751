-- ===== src/Lib.antt =====
-- The C libraries of the exynos5 hardware layer for HDMI sinks and for pixel formats.
--
-- Parts, and how they interact:
-- * libhdmi/libsForhdmi/libddc/libddc.c opens an I2C device once for all its users and transfers
--   bytes over it. Ddc.antt: the statics are the record `Ddc`, each function takes the state and
--   returns its value and the new state. Names are those of the code, DDCOpen being `ddc_open`.
-- * libhdmi/libsForhdmi/libedid/libedid.c reads the EDID blocks of a sink over libddc, keeps them,
--   and answers what the sink supports. Edid/Params.antt has the enums and structs of video.h and
--   audio.h, Edid/Tables.antt the two tables, Edid/State.antt the statics with EDIDOpen, EDIDClose,
--   EDIDRead and EDIDReset, Edid/Checksum.antt CalcChecksum, Edid/Blocks.antt the loop over the data
--   blocks with GetVSDBOffset and IsContainVIC, Edid/Timings.antt IsContainVideoDTD, Edid/Query.antt
--   CheckHDMIMode, IsTimingExtension and CheckResolution, Edid/Color.antt CheckColorDepth,
--   CheckColorSpace, CheckColorimetry and GetMaxTMDS, Edid/Stereo.antt and Edid/Stereo/Loop.antt
--   SaveVIC and EDID3DFormatSupport, Edid/Audio.antt EDIDAudioModeSupport, Edid/Api.antt the other
--   public functions.
-- * libhdmi/libsForhdmi/libcec/libcec.c allocates a logical address on the CEC bus, sends and
--   receives frames and checks messages. Cec.antt and Cec/Messages.antt.
-- * libswconverter/swconvertor.c converts between tiled and linear planes, and from RGB to YUV.
--   Convert/Plane.antt has the byte shuffles, Convert/Tile.antt Tile2D_To_Linear,
--   Convert/Linear.antt csc_tiled_to_linear_*, Convert/Tiled420.antt Tile2D_To_YUV420,
--   Convert/Pixel.antt and Convert/Image.antt the RGB conversions.
--
-- * libgscaler/exynos_gscaler.c drives the scaler over V4L2 in three modes: memory to memory, to a
--   display and from a display. Scaler/Format.antt has the tables of formats, Scaler/Driver.antt what
--   is asked of the kernel, Scaler/Handle.antt GSC_HANDLE (`Session` is a handle with the log of the
--   requests), Scaler/Ratio.antt the scale test, Scaler/Settings.antt the functions that only set
--   fields, Scaler/Stop.antt, Scaler/M2m.antt, Scaler/Out.antt and Scaler/Cap.antt the modes,
--   Scaler/Release.antt and Scaler/Create.antt the closing and opening of devices, Scaler/Api.antt the
--   entry points. Scaler/Client.antt is a client: any sequence of calls.
-- * libcodec/video/v4l2/dec/ExynosVideoDecoder.c keeps the buffers of its input and its output.
--   Decoder/Driver.antt: a `Port`, which is either of the two; Decoder/Buffers.antt: the operations on its
--   buffers. Decoder/Held.antt: what the driver holds. Decoder/Setup.antt: Setup, Get_Buffer, and what
--   Finalize does with a port; a set-up of so many buffers that the size of their array wraps in 32 bits is `crash`
--   once the memory has been given.
--   Decoder/Packing.antt: MFC_Decoder_Get_FramePackingInfo. Decoder/Wait.antt, Decoder/Geometry.antt and
--   Decoder/Settings.antt: Wait, the geometry, and the settings of one control each.
-- * libcodec/video/v4l2/enc/ExynosVideoEncoder.c keeps its buffers as the decoder does.
--   Encoder/Buffers.antt: the operations on the buffers, which the code repeats from the decoder word
--   for word, are taken from there, and the two waits; Encoder/Setup.antt: Setup, Find, Get_Buffer and Finalize of a port;
--   Encoder/Geometry.antt: the geometry and the settings of one control each;
--   Encoder/Params.antt, Encoder/Controls.antt and Encoder/Settings.antt: MFC_Encoder_Set_EncParam, where
--   a value of type int is the 32-bit word that holds it.
-- * libcodec/audio/alp/dec/srp_api.c is the client of the audio decoder device. Srp/Device.antt has its
--   statics and what is asked of the device, Srp/Api.antt its functions, Srp/Orderly.antt a client that
--   calls them in any order.
-- * libhwc/ExynosHWC.cpp decides which layers of the screen are overlays of the hardware, in hwc_prepare.
--   Hwc/Types.antt has the state, `HwcContext` being hwc_context_t, Hwc/Decide.antt the conditions on a
--   layer, Hwc/Mode.antt the change of the scaler's mode, Hwc/Skip.antt the layers that need not be drawn
--   again, Hwc/Prepare.antt hwc_prepare with assign_overlay_window, Hwc/Client.antt a screen in use. The
--   build has no BOARD_USES_HDMI; values of type int are integers (Common/Int.antt), without overflow.
--
-- The scaler, the video codecs and the audio client are written in a monad of state, failure and access through NULL
-- (Common/Act.antt): what a function wrote before it failed stays written.
-- Code that reads memory is a `Run` (Common/Outcome.antt): it returns a value, it reads outside an
-- object (`fault`), or its fuel is not enough (`hang`). The numbers of the code are natural numbers,
-- with `% 2 ^ w` where the code's type wraps, as the scaler's count of frames and libddc's count of users do. An int or unsigned value that cannot wrap at the sizes
-- of an EDID (at most 256 blocks of 128 bytes) has no remainder written.
--
-- Bounds and fuel: the checksum loop has one round more than the size, enough below 256 bytes. The
-- loop over data blocks has 256 rounds: every round goes on by one byte at least, and its end is at
-- most 255 bytes behind the start of the extension. The loop over detailed timings has 9 rounds of
-- 18 bytes, more than a block holds. A loop over the extensions has one round more than there are
-- extensions. The loop of EDID3DFormatSupport has no bound in the code, and its fuel is an
-- argument; so is that of the decoder's Wait, which polls until the device answers.
--
-- Parameters: the operating system's calls (`Host`, `Driver`) are functions that are given the number
-- of calls made before, so that each call may be answered differently. The kernel of the scaler, of
-- the video codecs and of the audio client is given the whole log of requests and answers.
--
-- Not modelled: debug output; CECPrintFrame; libddc with USES_MHL; the NEON assembly of
-- libswconverter; locks, and the tests for a NULL handle; of libgscaler m_exynos_gsc_multiple_of_n, which
-- nothing calls; of the decoder Init, the rest of Finalize, and the time stamps; of the encoder the same;
-- of libhwc what hwc_set does with a display, the events and the opening; libcamera, libion_exynos, the glue of libcodec to FFmpeg and the C++ parts of libhdmi,
-- which are mostly calls of drivers and of Android; FFmpeg, a copy of another project.
pub mod Cec
pub mod Common
pub mod Convert
pub mod Ddc
pub mod Decoder
pub mod Edid
pub mod Encoder
pub mod Hwc
pub mod Scaler
pub mod Srp
