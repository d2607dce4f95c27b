-- ===== src/Sha256d.antt =====
-- The hashing of sha256d.c.
pub mod Constants
pub mod Compress
pub mod OpenSsl
pub mod Midstate
pub mod Scan
pub mod Backend
