-- ===== src/Schema.antt =====
-- src/partition: jsondbschema_p.h, jsondbcheckpoints_p.h, jsondbobjecttypes_p.h and
-- jsondbschemamanager_p.h: schemas, which are compiled into checks, and the checks of an object.
pub mod Handle
pub mod Keyword
pub mod Types
pub mod Compile
pub mod Format
pub mod Check
pub mod Manager
pub mod Required
mod Tests
