-- ===== src/Lab3.antt =====
-- lab3: the slotted channel that stations with carrier sense share.
pub mod Medium
pub mod Station
pub mod Serve
pub mod Progress
pub mod Ending
pub mod Throughput
pub mod Loop
mod Tests
