-- ===== src/Libs.antt =====
-- The libraries of src/libs.
pub mod Memory
pub mod Allocator
pub mod Alloc
pub mod Queue
pub mod Ctype
pub mod Print
pub mod Atoi
pub mod Search
pub mod Text
pub mod Scan
pub mod Shell
