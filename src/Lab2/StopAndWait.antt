-- ===== src/Lab2/StopAndWait.antt =====
-- lab2/arq: Stop-and-Wait.
pub mod Sender
pub mod Receiver
pub mod System
pub mod Replies
pub mod SenderInv
pub mod SenderReplies
pub mod Alternating
pub mod Safety
pub mod Exchange
pub mod Lossless
pub mod Tests
