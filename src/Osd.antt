-- ===== src/Osd.antt =====
-- The OSD of src/sitl_osd.c.
pub mod Canvas
pub mod Font
pub mod Elements
