-- ===== src/Object.antt =====
-- src/partition/jsondbobject.cpp and jsondbobject.h: an object of the database. Versions and
-- their order, the history of replaced versions, optimistic and replicating writes, paths.
pub mod Version
pub mod History
pub mod Optimistic
pub mod Replicate
pub mod Path
mod Tests
