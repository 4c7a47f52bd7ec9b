-- ===== src/Record.antt =====
-- The record protections of src/ssl/ssl_rec_chapol.c and src/ssl/ssl_rec_gcm.c, each of which is a
-- `RecordLayer` for the engine. The children hold bytes in memory and one module per protection.
pub mod Bytes
pub mod Chapol
pub mod Gcm
pub mod Channel
mod Tests
