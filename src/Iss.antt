-- ===== src/Iss.antt =====
-- The instruction set simulator and the event channel: include/iss and src/iss.
pub mod Config
pub mod Ports
pub mod Batches
pub mod Publisher
pub mod Subscriber
pub mod Queue
pub mod Channel
pub mod Service
pub mod Cache
pub mod Plugin
pub mod Examples
mod Tests
