-- ===== src/Server/Interceptor.antt =====
-- internal/server/interceptor: the interceptors of incoming calls.
pub mod PeerKey
pub mod RateLimit
pub mod Config
pub mod Calls
pub mod Auth
pub mod CallLogging
pub mod Recovery
pub mod Gates
pub mod Chain
pub mod Uuid
pub mod RequestId
