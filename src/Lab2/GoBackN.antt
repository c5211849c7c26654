-- ===== src/Lab2/GoBackN.antt =====
-- lab2/arq: Go-Back-N.
pub mod Sender
pub mod Receiver
pub mod System
pub mod Window
pub mod SenderInv
pub mod Round
pub mod ReceiverInv
pub mod Safety
pub mod Slots
pub mod Bounds
pub mod Exchange
pub mod InStep
pub mod NextFrame
pub mod LastFrame
pub mod Lossless
pub mod Stuck
pub mod Overwrite
mod Tests
