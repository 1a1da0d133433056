-- ===== src/Rcopy.antt =====
-- rcopy.c: the client.
pub mod Handshake
pub mod Program
pub mod Receive
