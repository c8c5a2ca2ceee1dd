-- ===== src/Store.antt =====
-- src/soffortbackend/store.py: the store that the service and the phone routes share.
pub mod Memory
pub mod Conversions
pub mod Documents
pub mod Cosmos
