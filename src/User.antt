-- ===== src/User.antt =====
-- The part of src/user/runtime that programs link: the resolution of paths.
pub mod Path
pub mod Tests
