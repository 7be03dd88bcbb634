-- ===== src/Shell.antt =====
-- The shell of lab2: its tokens, its parser and the execution of command lists.
pub mod Token
pub mod Parse
pub mod Exec
pub mod Print
pub mod Free
mod Tests
