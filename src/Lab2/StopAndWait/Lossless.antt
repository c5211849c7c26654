-- ===== src/Lab2/StopAndWait/Lossless.antt =====
-- lab2: a Stop-and-Wait transfer in which nothing is lost.
use network_lab.Prelude.{
  ℕ, zero, suc, ◌+◌, ◌-◌, ◌%◌, ◌≤◌, ◌<◌, ◌≡◌, refl, ap, inl, inr, false, List, [], length, ltb,
  lt→ltb, take, drop, length-take, length-drop, arith, ◌==◌,
}
use native.Mathlib.Decide.{dec_lt}
use network_lab.Lab1.Checksum.Sum.{IsBytes}
use network_lab.Lab1.Frame.Bytes.{IsBytes-take, IsBytes-drop}
use network_lab.Lab2.Arq.{frame_data, data_frame, eot_frame, chunk_len}
use network_lab.Lab2.Arq.Frames.{make_frame-IsSealed, make_frame-fields}
use network_lab.Lab2.StopAndWait.Sender.{
  Sender, sending, waiting, ending, finished, send_new, main_round, advance, acked,
}
use network_lab.Lab2.StopAndWait.Receiver.{Receiver, deliver, send_ack}
use network_lab.Lab2.StopAndWait.System.{System, start, Reach, here}
use network_lab.Lab2.StopAndWait.Safety.{written-file}
use network_lab.Lab2.StopAndWait.Exchange.{still, sent_tx, counted, delivered, exchange}

-- Both sides stand at the top of their loops, at the same frame.
record InStep (tx : Sender) (rx : Receiver) : Type 0 where
  now : tx.phase ≡ sending
  same : rx.rn ≡ tx.sn
  bit : tx.sn < 2
  going : rx.stopped ≡ false

module _ (file : List ℕ) (bytes : IsBytes file) where
  data_chunk : ℕ → List ℕ
  data_chunk offset = take (chunk_len file offset) (drop offset file)

  length-data_chunk :
      (offset : ℕ)
      → (length (data_chunk offset) ≡ chunk_len file offset)
        × (chunk_len file offset ≤ 44)
        × (offset < length file → 0 < chunk_len file offset)
  unfolding data_chunk chunk_len
  length-data_chunk offset =
      let cut : chunk_len file offset ≤ length file - offset = ground arith in
      (
        omega (
          arith,
          cut,
          length-take (chunk_len file offset) (drop offset file),
          length-drop offset file,
        ),
        ground arith,
        λ inside. ground arith,
      )

  module _ (tx : Sender) (rx : Receiver) (v : InStep tx rx) where
    -- One more frame of the file.
    next_frame :
        tx.offset < length file
        → Reach file start (still tx rx)
        → (tx' : Sender) × (rx' : Receiver) × Reach file start (still tx' rx')
          × InStep tx' rx'
          × (tx.offset < tx'.offset)
    unfolding data_frame data_chunk counted sent_tx delivered send_new acked advance deliver
        send_ack
    next_frame inside r =
        let f = data_frame file tx.offset tx.sn in
        let (size, small, positive) = length-data_chunk tx.offset in
        let (t, n, l) =
          make_frame-fields frame_data tx.sn (data_chunk tx.offset) (omega arith)
            (omega (arith, v.bit)) in
        let nonzero : (f.header.frame_len == 0) ≡ false =
          ground (arith, l, size, positive inside) in
        let sealed =
          make_frame-IsSealed frame_data tx.sn (data_chunk tx.offset) (omega arith) (omega arith) (
            IsBytes-take (chunk_len file tx.offset) (drop tx.offset file)
              (IsBytes-drop tx.offset file bytes)) in
        (
          acked waiting file (counted tx f waiting),
          delivered rx f,
          exchange file tx rx f waiting (inl refl) v.now round sealed t n v.same v.bit v.going r,
          record {
            now = refl;
            same = ap (λ a. (a + 1) % 2) v.same;
            bit = omega arith;
            going = nonzero;
          },
          omega (arith, positive inside),
        )
      where
        round : main_round file tx ≡ send_new tx (data_frame file tx.offset tx.sn) waiting
        round = unfold main_round in rw (lt→ltb tx.offset (length file) inside) refl

    -- The end of the transmission.
    last_frame :
        length file ≤ tx.offset
        → Reach file start (still tx rx)
        → (s : System) × Reach file start s × (s.tx.phase ≡ finished)
    unfolding eot_frame acked
    last_frame behind r =
        let (t, n, l) =
          make_frame-fields frame_data tx.sn [] (omega arith) (omega (arith, v.bit)) in
        let sealed = make_frame-IsSealed frame_data tx.sn [] (omega arith) (omega arith) tt in
        (
          still (acked ending file (counted tx (eot_frame tx.sn) ending))
              (delivered rx (eot_frame tx.sn)),
          exchange file tx rx (eot_frame tx.sn) ending (inr refl) v.now round sealed t n v.same
              v.bit v.going r,
          refl,
        )
      where
        round : main_round file tx ≡ send_new tx (eot_frame tx.sn) ending
        round =
            let over : ltb tx.offset (length file) ≡ false = ground arith in
            unfold main_round in rw over refl

  -- As many turns as there are bytes are enough.
  finishes :
      (left : ℕ) (tx : Sender) (rx : Receiver)
      → InStep tx rx
      → length file ≤ tx.offset + left
      → Reach file start (still tx rx)
      → (s : System) × Reach file start s × (s.tx.phase ≡ finished)
  finishes zero tx rx v near r = last_frame tx rx v (omega arith) r
  finishes (suc left) tx rx v near r = elim (dec_lt tx.offset (length file)) [
    | no behind ↦ last_frame tx rx v (omega arith) r
    | yes inside ↦
        let (tx', rx', r', v', further) = next_frame tx rx v inside r in
        finishes left tx' rx' v' (omega arith) r'
  ]

-- Every file of bytes has a run of the two programs, over channels that may lose frames but do not, in
-- which the sender returns 0, and what the receiver has written then is the file.
pub Reach-finished :
    (file : List ℕ)
    → IsBytes file
    → (s : System) × Reach file start s × (s.tx.phase ≡ finished) × (s.rx.output ≡ file)
Reach-finished file bytes =
    let (s, r, over) =
      finishes file bytes (length file) start.tx start.rx
        (record { now = refl; same = refl; bit = omega arith; going = refl }) (omega arith) here in
    (s, r, over, written-file file bytes r (inr over))
