-- ===== src/Cli.antt =====
-- internal/cli: the command.
pub mod Helpers
pub mod Headers
pub mod Build
pub mod Flags
pub mod Exec
pub mod Run
