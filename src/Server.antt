-- ===== src/Server.antt =====
-- server.c: the parent process and the child that serves one client.
pub mod Args
pub mod Client
pub mod Transfer
