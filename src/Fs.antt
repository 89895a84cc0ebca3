-- ===== src/Fs.antt =====
-- The file system of fs/.
mod Tests
pub mod Dir
pub mod Bitmap
pub mod Layout
pub mod Block
pub mod Super
pub mod Inode
pub mod ReadWrite
pub mod Mount
pub mod Cache
pub mod File
pub mod Folder
