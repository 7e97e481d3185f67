-- ===== src/Http.antt =====
-- internal/transport/http: the requests of other services.
pub mod Routing
pub mod Paths
