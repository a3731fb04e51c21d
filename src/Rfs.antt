-- ===== src/Rfs.antt =====
-- The remote file server: rfs/source_RFS over a mapped ext2 image.
pub mod Geometry
pub mod Coordinates
pub mod Bitarray
pub mod Image
pub mod Alloc
pub mod DataBlocks
pub mod BlockCache
pub mod ReadFile
pub mod Inode
pub mod Remove
pub mod Paths
pub mod Lookup
pub mod WriteFile
pub mod Operations
pub mod Attach
pub mod Truncate
pub mod Directory
