-- ===== src/Fs.antt =====
-- src/fs: a file system in layers over a disk in memory.
pub mod Disk
pub mod Block
pub mod Bitmap
pub mod Data
pub mod Inode
pub mod File
pub mod Directory
pub mod Path
pub mod Calls
mod Tests
mod DirTests
mod CallTests
