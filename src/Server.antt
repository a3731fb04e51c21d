-- ===== src/Server.antt =====
-- The threads of the remote file server: rfs/source_RFS/server_threading.c.
pub mod Strings
pub mod ActiveFiles
pub mod TaskQueue
pub mod Tasks
pub mod Answers
