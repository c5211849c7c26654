-- ===== src/Lab2/GoBackN/InStep.antt =====
-- lab2: the states of a Go-Back-N transfer in which the next frame may be sent.
use network_lab.Prelude.{
  ℕ, ◌+◌, ◌*◌, ◌≤◌, ◌<◌, ◌≡◌, refl, ◌∙◌, inl, inr, true, false, List, [], ◌∷◌, length, leb, lt→ltb,
  arith, Bool-cases,
}
use network_lab.Lab1.Frame.{Frame, to_bytes}
use network_lab.Lab2.Arq.{Select}
use network_lab.Lab2.Arq.Progress.{Progress}
use network_lab.Lab2.GoBackN.Sender.{Sender, sending, wait, send_new, main_round, round_in, round}
use network_lab.Lab2.GoBackN.Receiver.{Receiver}
use network_lab.Lab2.GoBackN.System.{sends}

-- Both sides stand at the top of their loops, at the same frame, and the window has room for the next
-- frame of the file.
pub record InStep (file : List ℕ) (sw : ℕ) (tx : Sender) (rx : Receiver) : Type 0 where
  pub now : tx.phase ≡ sending
  pub same : rx.rn ≡ tx.sn
  pub far : Progress file 0 sending tx.sn tx.offset
  pub size : tx.sw ≡ sw
  pub room : tx.offset < length file → tx.sn < tx.sf + sw
  pub behind : tx.sf ≤ tx.sn
  pub going : rx.stopped ≡ false

pub sends-send_new : (tx : Sender) (f : Frame) → sends (send_new tx f).1 ≡ to_bytes f ∷ []
unfolding sends send_new
sends-send_new tx f = elim (Bool-cases tx.timer_running) [ inl e ↦ rw e refl | inr e ↦ rw e refl ]

module _ (file : List ℕ) where
  pub sn-small :
      (sw : ℕ) (tx : Sender) (rx : Receiver)
      → length file ≤ 44 * 65534
      → InStep file sw tx rx
      → tx.sn < 65535
  sn-small sw tx rx small v = go v.far
    where
      go : Progress file 0 sending tx.sn tx.offset → tx.sn < 65535
      go (inl (off, below)) = omega arith
      go (inr (off, all, near)) = omega arith

  pub sending_round :
      (tx : Sender) (sel : Select) → tx.phase ≡ sending → round file tx sel ≡ main_round file tx sel
  unfolding round round_in
  sending_round tx sel now = rw now refl

  -- A full window with data left: the sender waits.
  pub full_round :
      (tx : Sender) (sel : Select)
      → tx.phase ≡ sending
      → tx.offset < length file
      → tx.sf + tx.sw ≤ tx.sn
      → round file tx sel ≡ wait tx sel
  full_round tx sel now more full =
      let full_test : leb (tx.sf + tx.sw) tx.sn ≡ true = ground arith in
      sending_round tx sel now ∙ unfold main_round in rw (lt→ltb _ _ more, full_test) refl
