-- ===== src/Lab2/StopAndWait/Exchange.antt =====
-- lab2: one frame of a Stop-and-Wait transfer, sent, taken and acknowledged with nothing lost.
use network_lab.Prelude.{
  ℕ, ◌+◌, ◌-◌, ◌%◌, ◌<◌, ◌≡◌, refl, sym, ◌∙◌, ◌⊎◌, true, false, List, [], ◌∷◌, u32, arith, ◌==◌,
  ==_iff,
}
use mathlib.Core.Path.{subst}
use network_lab.Lab1.Frame.{Frame, to_bytes}
use network_lab.Lab2.Arq.{frame_data, frame_ack, reply_frame, timer_stop_window, record_rtt}
use network_lab.Lab2.Arq.Calls.{sends}
use network_lab.Lab2.Arq.Frames.{make_frame-fields}
use network_lab.Lab2.Arq.Genuine.{reply_frame-IsSealed}
use network_lab.Lab2.Channel.{Carries, quiet}
use network_lab.Lab2.Channel.Clean.{sealed_lem, carried}
use network_lab.Lab2.Channel.Flight.{IsSealed}
use network_lab.Lab2.StopAndWait.Sender.{
  Sender, Phase, sending, waiting, ending, got_frame, wait_for_ack, send_new, main_round, acked,
  acknowledges, on_reply, sw_wait_for_ack,
}
use network_lab.Lab2.StopAndWait.Receiver.{Receiver, deliver, send_ack, on_frame}
use network_lab.Lab2.StopAndWait.System.{
  System, start, reads, Step, sends_new, waits, receiver, Reach, next,
}

-- Nothing is on its way.
abbrev pub still : Sender → Receiver → System
still tx rx = record { tx = tx; rx = rx; forward = []; backward = [] }

-- The sender that has sent a frame, and the one that has had it acknowledged.
unfoldable pub sent_tx : Sender → Frame → Phase → Sender
sent_tx tx f phase = (send_new tx f phase).0

unfoldable pub counted : Sender → Frame → Phase → Sender
counted tx f phase =
    let s = sent_tx tx f phase in
    record s { stats = record (s.stats) { acks_received = u32 (s.stats.acks_received + 1) } }

-- The receiver that has taken it.
unfoldable pub delivered : Receiver → Frame → Receiver
delivered rx f = (send_ack (deliver rx f)).0

ack : Sender → List ℕ
ack tx = to_bytes (reply_frame frame_ack tx.sn)

module _ (file : List ℕ) (tx : Sender) (rx : Receiver) (f : Frame) (phase : Phase)
    (waits_then : (phase ≡ waiting) ⊎ (phase ≡ ending)) (now : tx.phase ≡ sending)
    (round : main_round file tx ≡ send_new tx f phase) (sealed : IsSealed f)
    (is_data : f.header.frame_type ≡ frame_data) (seq : f.header.frame_seq ≡ tx.sn)
    (same : rx.rn ≡ tx.sn) (bit : tx.sn < 2) (going : rx.stopped ≡ false) where
  sends-Step :
      Step file (still tx rx) (record (still (sent_tx tx f phase) rx) { forward = to_bytes f ∷ [] })
  unfolding sent_tx send_new sends
  sends-Step =
      subst
        (λ r.
          Carries (sends r.1) (to_bytes f ∷ [])
          → Step file (still tx rx) (record (still r.0 rx) { forward = to_bytes f ∷ [] }))
        round (λ c. sends_new now c) (carried (to_bytes f))

  on_frame_lem : on_frame rx (to_bytes f) ≡ ((delivered rx f), (ack tx) ∷ [])
  unfolding on_frame delivered send_ack deliver ack
  on_frame_lem =
      let (passes, back) = sealed_lem sealed in
      let typed : (f.header.frame_type == frame_data) ≡ true = (==_iff _ _).1 is_data in
      let awaited : (f.header.frame_seq == rx.rn) ≡ true = (==_iff _ _).1 (seq ∙ sym same) in
      let answered : ((rx.rn + 1) % 2 + 2 - 1) % 2 ≡ tx.sn = omega arith in
      rw (back, passes, typed, awaited, answered) refl

  receiver-Step :
      Step file
        (record (still (sent_tx tx f phase) rx) { forward = to_bytes f ∷ [] })
        (record (still (sent_tx tx f phase) (delivered rx f)) { backward = (ack tx) ∷ [] })
  receiver-Step =
      subst
        (λ r.
          Carries r.1 ((ack tx) ∷ [])
          → Step file (record (still (sent_tx tx f phase) rx) { forward = to_bytes f ∷ [] })
              (record (still (sent_tx tx f phase) r.0) { backward = (ack tx) ∷ [] }))
        on_frame_lem (λ c. receiver going refl c) (carried (ack tx))

  acknowledges_lem : acknowledges (sent_tx tx f phase) (ack tx) ≡ true
  unfolding acknowledges sent_tx send_new ack reply_frame
  acknowledges_lem =
      let (passes, back) = sealed_lem (reply_frame-IsSealed tx.sn) in
      let (t, n, l) = make_frame-fields frame_ack tx.sn [] (omega arith) (omega arith) in
      rw (passes, back, t, n) ((==_iff tx.sn tx.sn).1 refl)

  reply_lem :
      sw_wait_for_ack file (sent_tx tx f phase) (got_frame (ack tx))
      ≡ (acked phase file (counted tx f phase), timer_stop_window ∷ record_rtt tx.sn ∷ [])
  unfolding sw_wait_for_ack on_reply counted sent_tx send_new
  reply_lem = rw acknowledges_lem refl

  reply-Step :
      Step file
        (record (still (sent_tx tx f phase) (delivered rx f)) { backward = (ack tx) ∷ [] })
        (still (acked phase file (counted tx f phase)) (delivered rx f))
  unfolding wait_for_ack sends sent_tx send_new
  reply-Step =
      subst
        (λ r.
          Carries (sends r.1) []
          → Step file
              (record (still (sent_tx tx f phase) (delivered rx f)) { backward = (ack tx) ∷ [] })
              (still r.0 (delivered rx f)))
        reply_lem (λ c. waits waits_then (reads (ack tx) []) c) quiet

  -- A frame is sent, taken and acknowledged.
  pub exchange :
      Reach file start (still tx rx)
      → Reach file start (still (acked phase file (counted tx f phase)) (delivered rx f))
  exchange r = next (next (next r sends-Step) receiver-Step) reply-Step
