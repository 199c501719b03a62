-- ===== src/Fs.antt =====
-- src/kernel/fs/fs.c, from the path components up to the descriptor operations.
pub mod Path
pub mod Node
pub mod Block
pub mod Nodefs
pub mod Data
pub mod Vfs
pub mod Api
pub mod Valid
pub mod Init
pub mod Tests
