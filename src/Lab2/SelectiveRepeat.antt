-- ===== src/Lab2/SelectiveRepeat.antt =====
-- lab2/arq: Selective Repeat.
pub mod Sender
pub mod Receiver
pub mod System
pub mod Marks
pub mod ReceiverInv
pub mod Replies
pub mod SenderInv
pub mod Round
pub mod Safety
pub mod Waits
pub mod Stuck
mod Tests
