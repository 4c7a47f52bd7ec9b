-- ===== src/Hash.antt =====
-- The hash functions of src/hash/.
pub mod Blocks
pub mod Md5
pub mod Sha1
pub mod Sha2small
mod Tests
