-- ===== src/Daemon.antt =====
-- daemon.h and daemon.c, and the parts of api.c that work on the client.
pub mod Request
pub mod Dispatch
pub mod Client
pub mod Loop
pub mod Stream
pub mod Steps
pub mod Connect
pub mod Wait
