-- ===== src/Lab2/GoBackN/LastFrame.antt =====
-- lab2: the end-of-transmission frame of a Go-Back-N transfer arrives, its acknowledgement is read, and
-- the sender returns.
use network_lab.Prelude.{
  ℕ, ◌+◌, ◌*◌, ◌^◌, ◌≤◌, ◌<◌, ◌≡◌, refl, sym, ◌∙◌, true, false, List, [], ◌∷◌, length, ltb, lt→ltb,
  u16, arith,
}
use mathlib.Core.Path.{subst}
use network_lab.Lab1.Checksum.Sum.{IsBytes}
use network_lab.Lab1.Frame.{Frame, to_bytes}
use network_lab.Lab2.Arq.{frame_data, eot_frame, Select, timeout}
use network_lab.Lab2.Arq.Frames.{make_frame-IsSealed, make_frame-fields}
use network_lab.Lab2.Channel.{Carries, quiet}
use network_lab.Lab2.Channel.Flight.{IsSealed}
use network_lab.Lab2.GoBackN.Sender.{
  Sender, draining, finished, wait, send_new, send_eot, main_round, drain_round, round_in, round,
}
use network_lab.Lab2.GoBackN.Receiver.{Receiver, deliver}
use network_lab.Lab2.GoBackN.System as System
use network_lab.Lab2.GoBackN.System.{sends, Step, sender, expires, Reach, here, next}
use network_lab.Lab2.GoBackN.Window.{Same}
use network_lab.Lab2.GoBackN.Exchange.{
  still, taken, ack, answered, acked, acked-Same, acked-sf, reply-Step,
}
use network_lab.Lab2.GoBackN.InStep.{InStep, sends-send_new, sn-small, sending_round}

module _ (file : List ℕ) (bytes : IsBytes file) (small : length file ≤ 44 * 65534) (sw : ℕ)
    (pos : 0 < sw) where
  -- The end of the transmission, and the return of the sender.
  module _ (tx : Sender) (rx : Receiver) (v : InStep file sw tx rx)
      (none_left : length file ≤ tx.offset) where
    eot : Frame
    eot = eot_frame tx.sn

    eot_lem :
        IsSealed eot
        × (eot.header.frame_type ≡ frame_data)
        × (eot.header.frame_seq ≡ tx.sn)
        × (eot.header.frame_len ≡ 0)
    unfolding eot eot_frame
    eot_lem =
        let (t, n, l) =
          make_frame-fields frame_data tx.sn [] (omega arith)
            (omega (arith, sn-small file sw tx rx small v)) in
        (make_frame-IsSealed frame_data tx.sn [] (omega arith) (omega arith) tt, t, n, l)

    last_tx : Sender
    last_tx = (send_eot tx).0

    last_tx_fields : (last_tx.phase ≡ draining) × (last_tx.sn ≡ tx.sn + 1) × (last_tx.sf ≡ tx.sf)
    unfolding last_tx send_eot send_new
    last_tx_fields = (refl, omega (arith, sn-small file sw tx rx small v), refl)

    sends-send_eot : sends (send_eot tx).1 ≡ to_bytes eot ∷ []
    unfolding send_eot eot
    sends-send_eot = sends-send_new tx eot

    eot_round : round file tx timeout ≡ (last_tx, (send_eot tx).1)
    unfolding last_tx
    eot_round =
        let over : ltb tx.offset (length file) ≡ false = ground arith in
        sending_round file tx timeout v.now ∙ unfold main_round in rw over refl

    last_rx : Receiver
    last_rx = taken rx eot

    last_rx-stopped : last_rx.stopped ≡ true
    unfolding last_rx taken deliver
    last_rx-stopped = ground (arith, eot_lem.3)

    last_ack : ℕ
    last_ack = u16 (rx.rn + 1)

    last_fits : last_ack < 2 ^ 16
    unfolding last_ack
    last_fits = omega arith

    last_all : last_ack ≡ last_tx.sn
    unfolding last_ack
    last_all = omega (arith, last_tx_fields.1, v.same, sn-small file sw tx rx small v)

    last_outstanding : last_tx.sf < last_ack
    last_outstanding = omega (arith, last_all, last_tx_fields.1, last_tx_fields.2, v.behind)

    drain_turn :
        (t : Sender) (sel : Select) → t.phase ≡ draining → round file t sel ≡ drain_round t sel
    unfolding round round_in
    drain_turn t sel now = rw now refl

    last_waits : (sel : Select) → round file last_tx sel ≡ wait last_tx sel
    last_waits sel =
        let more : ltb last_tx.sf last_tx.sn ≡ true =
          lt→ltb _ _ (omega (arith, last_all, last_outstanding)) in
        drain_turn last_tx sel last_tx_fields.0 ∙ unfold drain_round in rw more refl

    drained : Sender
    drained = acked file last_tx last_rx last_ack last_fits last_all last_outstanding last_waits

    kept : Same last_tx drained
    unfolding drained
    kept = acked-Same file last_tx last_rx last_ack last_fits last_all last_outstanding last_waits

    drained-sf : drained.sf ≡ last_ack
    unfolding drained
    drained-sf =
        acked-sf file last_tx last_rx last_ack last_fits last_all last_outstanding last_waits

    returns : round file drained timeout ≡ (record drained { phase = finished }, [])
    returns =
        let empty : ltb drained.sf drained.sn ≡ false =
          ground (arith, drained-sf, kept.sn_same, last_all) in
        drain_turn drained timeout (kept.phase_same ∙ last_tx_fields.0)
        ∙ unfold drain_round in rw empty refl

    return-Step :
        Step file (still drained last_rx) (still (record drained { phase = finished }) last_rx)
    return-Step =
        subst (λ r. Carries (sends r.1) [] → Step file (still drained last_rx) (still r.0 last_rx))
          returns (λ c. sender expires c) (unfold sends in quiet)

    pub last_frame :
        {s : System.System}
        → Reach file s (still tx rx)
        → (u : System.System) × Reach file s u × (u.rx.stopped ≡ true) × (u.tx.phase ≡ finished)
    last_frame {s} r =
        let sent : Reach file s (record (still last_tx last_rx) { backward = ack rx ∷ [] }) =
          unfold last_rx in
          answered file tx last_tx rx eot eot_round sends-send_eot eot_lem.0 eot_lem.1
            (eot_lem.2 ∙ sym v.same) v.going r in
        let read : Reach file s (still drained last_rx) =
          unfold drained last_ack in
          next sent (
            reply-Step file last_tx last_rx last_ack last_fits last_all last_outstanding
              last_waits) in
        (
          still (record drained { phase = finished }) last_rx,
          next read return-Step,
          last_rx-stopped,
          refl,
        )
