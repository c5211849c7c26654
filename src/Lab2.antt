-- ===== src/Lab2.antt =====
-- lab2: the noisy channel, the timers and the three ARQ protocols.
pub mod Channel
pub mod Arq
pub mod StopAndWait
pub mod GoBackN
pub mod SelectiveRepeat
pub mod Run
pub mod Eval
pub mod Timer
