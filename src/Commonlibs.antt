-- ===== src/Commonlibs.antt =====
-- src/lib/commonlibs.c, the helpers that the kernel and the applications share.
pub mod Buffer
pub mod Text
pub mod Time
