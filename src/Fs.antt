-- ===== src/Fs.antt =====
-- The file system, fs.
pub mod Errno
pub mod Layout
mod Words
pub mod Bitmap
pub mod State
pub mod Block
pub mod Super
pub mod Inode
pub mod ReadWrite
pub mod Create
pub mod Dirent
pub mod Dir
pub mod File
pub mod Testfs
pub mod Mktestfs
mod Tests
mod FileTests
mod InodeTests
mod DirTests
mod RemoveTests
mod TestfsTests
