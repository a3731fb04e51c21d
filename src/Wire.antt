-- ===== src/Wire.antt =====
-- fsc/sources_FSC/serializadores.c: the messages between the FUSE client and the server.
pub mod Bytes
pub mod Messages
pub mod Replies
pub mod Frames
pub mod Requests
pub mod Answers
pub mod Directory
