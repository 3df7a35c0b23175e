-- ===== src/Nfs.antt =====
-- NFS/: a read-only NFS 3 server on ONC RPC.
pub mod Types
pub mod Xdr
mod Memory
mod Sample
pub mod System
pub mod Tools
pub mod Read
pub mod Server
pub mod Dispatch
pub mod Handles
pub mod Lookup
pub mod Decoded
pub mod Refused
pub mod Listing
pub mod Reading
pub mod Serving
pub mod Copies
pub mod Encoding
pub mod Requests
pub mod Startup
mod Examples
