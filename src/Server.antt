-- ===== src/Server.antt =====
-- Parts of the request path: internal/server.
pub mod Range
pub mod Coalesce
