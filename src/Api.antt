-- ===== src/Api.antt =====
-- superl8serve/api: what the HTTP server keeps.
pub mod Files
pub mod Worker
pub mod Reasoning
