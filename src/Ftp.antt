-- ===== src/Ftp.antt =====
-- FTP/ftp_server.c: a single-threaded FTP server with passive data connections.
pub mod System
pub mod Data
pub mod Session
pub mod Dispatch
pub mod Replies
pub mod Sockets
pub mod Transfers
pub mod Words
mod Examples
