-- ===== src/Local.antt =====
-- The in-process link of src/sitl_local.c between the flight controller and its host.
pub mod Grid
pub mod Config
pub mod Modes
pub mod Burst
