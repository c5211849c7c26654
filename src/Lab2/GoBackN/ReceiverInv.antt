-- ===== src/Lab2/GoBackN/ReceiverInv.antt =====
-- lab2/arq/receiver.c, Go-Back-N: what is written out is the beginning of the file, frame by frame.
use network_lab.Prelude.{
  ℕ, ◌+◌, ◌-◌, ◌*◌, ◌≤◌, ◌<◌, ◌≡◌, refl, ap, ◌∙◌, inl, inr, true, false, List, length, take, arith,
  All, Bool-cases,
}
use Prim.Native.Nat.{min}
use network_lab.Lab1.Frame.{Frame, of_bytes}
use network_lab.Lab1.Frame.Seal.{fcs_matches}
use network_lab.Lab2.Arq.{frame_ack, reply_frame}
use network_lab.Lab2.Arq.Frames.{nth_frame}
use network_lab.Lab2.Channel.Flight.{Flight, Outgoing, Flight-of_bytes}
use network_lab.Lab2.Arq.Genuine.{Genuine, AckUpTo, reply_frame-IsSealed}
use network_lab.Lab2.GoBackN.Receiver.{Receiver, in_order, deliver, corrupted, accept, on_frame}
use network_lab.Lab2.Arq.Payload.{nth_frame-seq, nth_frame-len, written-append}

pub record ReceiverInv (file : List ℕ) (r : Receiver) : Type 0 where
  pub in_range : 44 * r.rn < length file + 88
  pub written : r.output ≡ take (44 * r.rn) file
  pub going : r.stopped ≡ false → 44 * r.rn < length file + 44
  pub whole : r.stopped ≡ true → length file + 44 ≤ 44 * r.rn

pub in_order-seq : (r : Receiver) (f : Frame) → in_order r f ≡ true → f.header.frame_seq ≡ r.rn
unfolding in_order
in_order-seq r f h = ground arith

-- What is read in a frame of the file whose number is the expected one.
module _ (file : List ℕ) (small : length file ≤ 44 * 65534) where
  deliver-ReceiverInv :
      (r : Receiver) (f : Frame)
      → ReceiverInv file r
      → Genuine file f
      → f.header.frame_seq ≡ r.rn
      → ReceiverInv file (deliver r f)
  unfolding deliver
  deliver-ReceiverInv r f v (k, h, e) same = record {
    in_range = omega (arith, number);
    written =
        written-append file r.rn v.written (e ∙ ap (nth_frame file) number)
        ∙ ap (λ m. take m file) (omega (arith, number));
    going = λ t. ground (arith, number, len, t);
    whole = λ t. ground (arith, number, len, t);
  }
    where
      number : k ≡ r.rn
      number = omega (arith, same, nth_frame-seq file k e (omega arith))

      len : f.header.frame_len ≡ min 44 (length file - 44 * k)
      len = nth_frame-len file k e

  accept-ReceiverInv :
      (r : Receiver) {b : List ℕ}
      → r.stopped ≡ false
      → ReceiverInv file r
      → Flight (Genuine file) b
      → ReceiverInv file (accept r b) × (r.rn ≤ (accept r b).rn)
  unfolding accept corrupted
  accept-ReceiverInv r {b} on v fl = elim (Bool-cases (fcs_matches b)) [
    | inr bad ↦ rw bad (
      record { in_range = v.in_range; written = v.written; going = v.going; whole = v.whole },
      omega arith,
    )
    | inl ok ↦ elim (Bool-cases (in_order r (of_bytes b))) [
      | inr other ↦ rw (ok, other) (v, omega arith)
      | inl next ↦
          rw (ok, next)
            (
              deliver-ReceiverInv r (of_bytes b) v (Flight-of_bytes (Genuine file) fl ok)
                  (in_order-seq r (of_bytes b) next),
              (unfold deliver in omega (arith, v.going on)),
            )
    ]
  ]

  -- One frame from the wire: what is written out grows by a frame of the file or not at all.
  pub on_frame-ReceiverInv :
      (r : Receiver) {b : List ℕ}
      → r.stopped ≡ false
      → ReceiverInv file r
      → Flight (Genuine file) b
      → ReceiverInv file (on_frame r b).0
        × (r.rn ≤ (on_frame r b).0.rn)
        × All (Outgoing (AckUpTo (on_frame r b).0.rn)) (on_frame r b).1
  unfolding on_frame
  on_frame-ReceiverInv r {b} on v fl =
      let (v', le) = accept-ReceiverInv r on v fl in
      let rn' = (accept r b).rn in
      (
        record { in_range = v'.in_range; written = v'.written; going = v'.going; whole = v'.whole },
        le,
        ((reply_frame frame_ack rn', (rn', omega arith, refl), reply_frame-IsSealed rn', refl), tt),
      )
