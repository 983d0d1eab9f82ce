-- ===== src/Qt.antt =====
-- What the sources use of Qt: texts and JSON values are modelled, the rest is an interface.
pub mod Text
pub mod Json
pub mod Calls
pub mod Sample
