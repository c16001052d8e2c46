-- ===== src/Commands.antt =====
-- src/commands and src/utils: what the shell's commands do.
pub mod Messages
pub mod Names
pub mod Variables
pub mod Files
pub mod Programs
