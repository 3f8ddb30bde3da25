-- ===== src/Cmd.antt =====
-- cmd: how the two command line programs put their client and their server together.
pub mod Client
pub mod Server
