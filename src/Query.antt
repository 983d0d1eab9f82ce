-- ===== src/Query.antt =====
-- src/partition/jsondbquery.h, jsondbquery.cpp, jsondbquerytokenizer.cpp and the constraints of
-- jsondbindexquery.cpp: queries, and what it means that an object matches one.
pub mod Compare
pub mod Term
pub mod Match
pub mod Constraint
pub mod Compile
pub mod Scan
pub mod Tokenizer
pub mod Parser
mod Tests
