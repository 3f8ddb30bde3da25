-- ===== src/Client/Interceptor.antt =====
-- internal/client/interceptor: the interceptors of outgoing calls.
pub mod Config
pub mod Backoff
pub mod Retry
pub mod Auth
pub mod Timeout
pub mod CallLogging
