-- ===== src/Common.antt =====
-- internal/common: the types and helpers that the other packages share.
pub mod Result
pub mod Model
pub mod Hex
pub mod Set
pub mod Services
pub mod Laws
pub mod KeyStore
pub mod Config
