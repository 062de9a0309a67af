-- ===== src/Sys.antt =====
-- The system: include/system and src/system.
pub mod Processes
pub mod Paths
pub mod Boot
pub mod BootLaws
pub mod BootErrors
pub mod Register
pub mod CleanUp
pub mod Domains
pub mod Clocks
pub mod Run
pub mod Configure
mod Tests
