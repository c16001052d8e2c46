-- ===== src/Core.antt =====
-- src/core: the shell's input, its words, and the commands that they name.
pub mod Tokens
pub mod Interpreter
pub mod Shell
mod Tests
mod QueuedTests
mod LineTests
