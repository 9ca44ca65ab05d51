-- ===== src/Handbrake.antt =====
-- internal/handbrake: the encoder's temporary files, its command line, its run and its result.
pub mod Temp
pub mod ShellSplit
pub mod Quoting
pub mod Args
pub mod WorkResult
pub mod Run
pub mod Lines
