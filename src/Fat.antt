-- ===== src/Fat.antt =====
-- FAT/fat.c: a FAT file system on one disk file, served through FUSE.
pub mod Bytes
pub mod State
pub mod Path
pub mod Cluster
pub mod Table
pub mod Mounted
pub mod Segments
pub mod Durable
pub mod Free
pub mod Entry
pub mod Dir
pub mod File
pub mod Init
pub mod Ops
pub mod Reading
mod Tests
mod Examples
