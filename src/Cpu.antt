-- ===== src/Cpu.antt =====
-- The processor: include/cpu and src/cpu.
pub mod Insts
pub mod Events
pub mod Status
pub mod Core
