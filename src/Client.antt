-- ===== src/Client.antt =====
-- src/client: the client library, of which the cache of its models is modelled.
pub mod Cache
