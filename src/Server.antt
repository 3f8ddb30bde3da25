-- ===== src/Server.antt =====
-- internal/server: the server and its interceptors.
pub mod Interceptor
pub mod Options
pub mod Lifecycle
