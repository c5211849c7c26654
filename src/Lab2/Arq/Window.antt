-- ===== src/Lab2/Arq/Window.antt =====
-- lab2/arq/sender.c: what the window of the Go-Back-N and of the Selective Repeat sender share.
use network_lab.Prelude.{ℕ, zero, suc, ◌+◌, ◌%◌, ◌^◌, ◌<◌, ◌≡◌, arith, u16, ◌==◌, if◌then◌else◌}
use network_lab.Lab1.Frame.{Frame}

-- Where the function stands: in the main loop, in the drain loop behind the end-of-transmission
-- frame, or returned.
pub data Phase : Type 0 where
  sending draining finished : Phase

abbrev pub store : (ℕ → Frame) → ℕ → Frame → ℕ → Frame
store frames slot f i = if i == slot then f else frames i

-- `while(*Sf < ackNo) (*Sf)++`, with the rounds that are left
unfoldable pub slide : ℕ → ℕ → ℕ
slide zero sf = sf
slide (suc left) sf = slide left (u16 (sf + 1))

pub slide_lem : (left sf : ℕ) → sf + left < 2 ^ 16 → slide left sf ≡ sf + left
unfolding slide
slide_lem zero sf h = omega arith
slide_lem (suc left) sf h =
    let e : (sf + 1) % 2 ^ 16 ≡ sf + 1 = omega arith in
    rw e (omega (arith, slide_lem left (sf + 1) (omega arith)))
