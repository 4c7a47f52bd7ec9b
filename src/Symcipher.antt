-- ===== src/Symcipher.antt =====
-- The ciphers of src/symcipher/: ChaCha20, and Poly1305 with it.
pub mod Chacha20
pub mod Poly1305
mod Tests
