-- ===== src/Fs.antt =====
-- The FAT32 file system of src/fs.
pub mod Disk
pub mod Cache
pub mod Volume
pub mod Table
pub mod Mount
pub mod Entry
pub mod File
pub mod Dir
pub mod DirScan
pub mod Tree
mod Samples
