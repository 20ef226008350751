-- ===== src/Hwc.antt =====
-- libhwc/ExynosHWC.cpp: which layers of the screen the hardware composes.
pub mod Types
pub mod Decide
pub mod Mode
pub mod Skip
pub mod Prepare
pub mod Shown
pub mod Client
pub mod Noted
pub mod Frames
pub mod Screen
pub mod Scaling
pub mod Retry
pub mod Stuck
pub mod Assign
pub mod Uses
pub mod Windows
mod Tests
