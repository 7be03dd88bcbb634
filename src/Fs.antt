-- ===== src/Fs.antt =====
-- The file system of lab4 (lab4/fs5600.c, lab4/fs5600.h, lab4/misc.c).
pub mod Bitmap
pub mod Block
pub mod Monad
pub mod Dir
pub mod Path
pub mod Alloc
pub mod Attr
pub mod Read
pub mod Change
pub mod Write
mod Sample
mod Tests
