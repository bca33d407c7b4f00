-- ===== src/HttpApi.antt =====
-- internal/httpapi: parts of the HTTP server.
pub mod Sessions
pub mod Settings
pub mod Compression
