-- ===== src/Engine.antt =====
-- The record management of src/ssl/ssl_engine.c: the I/O registers of a TLS engine. The children
-- hold the state, the buffers, the receiving and the sending side, and their laws.
pub mod State
pub mod Err
pub mod RecordType
pub mod Buffers
pub mod Receive
pub mod Send
pub mod Api
pub mod Run
pub mod Keys
mod Tests
