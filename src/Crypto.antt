-- ===== src/Crypto.antt =====
-- kernel/src/crypto: checksums.
pub mod Crc32
