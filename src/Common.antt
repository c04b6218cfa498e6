-- ===== src/Common.antt =====
-- The `common` crate: what the other crates share.
pub mod Ids
pub mod Catalog
