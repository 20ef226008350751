-- ===== src/Scaler.antt =====
-- libgscaler/exynos_gscaler.c: the scaler of the exynos5, over V4L2.
pub mod Format
pub mod Driver
pub mod Handle
pub mod Ratio
pub mod Settings
pub mod Stop
pub mod M2m
pub mod Out
pub mod Cap
pub mod Release
pub mod Create
pub mod Api
pub mod Client
pub mod Device
pub mod Ring
pub mod Limits
pub mod Index
mod Tests
mod Rules
pub mod Safe
