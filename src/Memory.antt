-- ===== src/Memory.antt =====
-- src/memory: the shell's variables, its frames, and the order in which frames were used.
pub mod Variables
pub mod Lru
pub mod Frames
pub mod Manager
mod MemTests
