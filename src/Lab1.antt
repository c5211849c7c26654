-- ===== src/Lab1.antt =====
-- lab1: frames and their check sequences.
pub mod Checksum
pub mod Crc
pub mod Scheme
pub mod Inject
pub mod Frame
pub mod Link
pub mod Target
pub mod Experiment
pub mod Perf
pub mod Programs
mod Tests
