-- ===== src/Lab2/Arq/Genuine.antt =====
-- The frames that a transfer of a file may have on its way.
use network_lab.Prelude.{ℕ, ◌+◌, ◌*◌, ◌^◌, ◌≤◌, ◌<◌, ◌≡◌, sym, ap, true, List, [], length, arith}
use mathlib.Core.Path.{subst}
use network_lab.Lab1.Checksum.Sum.{IsBytes}
use network_lab.Lab1.Frame.{Frame, of_bytes}
use network_lab.Lab1.Frame.Seal.{fcs_matches}
use network_lab.Lab2.Arq.{frame_ack, reply_frame}
use network_lab.Lab2.Arq.Frames.{
  nth_frame, make_frame-fields, make_frame-IsSealed, nth_frame-IsSealed,
}
use network_lab.Lab2.Channel.Flight.{IsSealed, Flight, Flight-of_bytes}

-- Frame `k` of the file; the last of these numbers is that of the empty frame that ends it.
abbrev pub Genuine : List ℕ → Frame → Type 0
Genuine file f = (k : ℕ) × (44 * k < length file + 44) × (f ≡ nth_frame file k)

-- An acknowledgement that asks for a frame not behind number `n`.
abbrev pub AckUpTo : ℕ → Frame → Type 0
AckUpTo n f = (a : ℕ) × (a ≤ n) × (f ≡ reply_frame frame_ack a)

pub Genuine-IsSealed : (file : List ℕ) → IsBytes file → (f : Frame) → Genuine file f → IsSealed f
Genuine-IsSealed file b f (k, h, e) = subst IsSealed (sym e) (nth_frame-IsSealed file k b)

pub reply_frame-IsSealed : (a : ℕ) → IsSealed (reply_frame frame_ack a)
unfolding reply_frame
reply_frame-IsSealed a = make_frame-IsSealed frame_ack a [] (omega arith) (omega arith) tt

-- The number that is read in an acknowledgement which passes the check.
pub ack-le :
    (n : ℕ) {b : List ℕ}
    → n < 2 ^ 16
    → Flight (AckUpTo n) b
    → fcs_matches b ≡ true
    → (of_bytes b).header.frame_seq ≤ n
unfolding reply_frame
ack-le n {b} small fl ok =
    let (a, le, e) = Flight-of_bytes (AckUpTo n) fl ok in
    omega (
      arith,
      ap (λ f. f.header.frame_seq) e,
      make_frame-fields frame_ack a [] (omega arith) (omega arith),
    )
