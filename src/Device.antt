-- ===== src/Device.antt =====
-- tide_client/device: what the drivers compute, over the buses that they are given.
pub mod Bytes
pub mod Counter
pub mod Sdi12
