-- ===== src/Client.antt =====
-- internal/client: the client and its interceptors.
pub mod Interceptor
pub mod Options
pub mod Connection
pub mod Health
pub mod Ready
pub mod Reflection
