-- ===== src/Index.antt =====
-- src/partition/jsondbindex.cpp: the keys of an index, their order, and the cache of offsets.
pub mod Key
pub mod Compare
pub mod Offsets
pub mod Spec
pub mod Objects
mod Tests
