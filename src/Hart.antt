-- ===== src/Hart.antt =====
-- A simulated hart: the processor, its instruction set simulator and its process.
pub mod State
pub mod Fetch
pub mod Tick
pub mod Spec
pub mod Takes
pub mod Rounds
pub mod Loops
pub mod FetchLaws
pub mod Runs
pub mod Links
pub mod TickLaws
pub mod Effects
pub mod Advance
pub mod Scheduling
pub mod Waking
pub mod Running
pub mod Completion
pub mod Reach
pub mod Worker
pub mod Shared
pub mod Guest
pub mod Leftover
pub mod Examples
mod Tests
mod RunTests
