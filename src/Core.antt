-- ===== src/Core.antt =====
-- packages/core/src: tags, their account on the chain, and what is derived from them.
pub mod Constants
pub mod Normalize
pub mod Account
pub mod Reserved
pub mod Seeds
pub mod CacheKey
