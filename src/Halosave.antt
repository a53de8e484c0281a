-- ===== src/Halosave.antt =====
-- internal/halosave: the binary save files of the game, read and rebuilt.
pub mod Bytes
pub mod Digest
pub mod Ce
