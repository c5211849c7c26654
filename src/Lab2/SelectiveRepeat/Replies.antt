-- ===== src/Lab2/SelectiveRepeat/Replies.antt =====
-- lab2/arq/receiver.c, Selective Repeat: a turn of the receiver keeps its invariant, and its replies
-- name no frame behind the expected one.
use network_lab.Prelude.{
  ℕ, ◌*◌, ◌%◌, ◌≤◌, ◌<◌, ◌≡◌, refl, sym, ap, ◌∙◌, inl, inr, Bool, true, false, List, take, ◌==◌,
  length, arith, Bool-cases, All, All-append, All-map,
}
use mathlib.Core.Bool.{false≢true}
use network_lab.Lab1.Frame.{Frame, to_bytes, of_bytes}
use network_lab.Lab1.Frame.Seal.{fcs_matches}
use network_lab.Lab2.Arq.{frame_data, frame_ack, frame_nak, reply_frame}
use network_lab.Lab2.Arq.Genuine.{Genuine}
use network_lab.Lab2.Channel.Flight.{Flight, Outgoing, Flight-of_bytes}
use network_lab.Lab2.SelectiveRepeat.Receiver.{
  Receiver, nak_unless_sent, corrupted, take_in, acknowledge, on_data, on_frame,
}
use network_lab.Lab2.SelectiveRepeat.ReceiverInv.{
  ReceiverInv, LoopInv, ReplyUpTo, reply_frame-IsSealed, take_in-LoopInv, stopped-take_in,
}

pub Outgoing-reply :
    (n t a : ℕ) → t < 256 → a ≤ n → Outgoing (ReplyUpTo n) (to_bytes (reply_frame t a))
Outgoing-reply n t a ht le =
    (reply_frame t a, (t, a, ht, le, refl), reply_frame-IsSealed t a ht, refl)

pub ReplyUpTo-later : {m n : ℕ} → m ≤ n → (f : Frame) → ReplyUpTo m f → ReplyUpTo n f
ReplyUpTo-later h f (t, a, ht, le, e) = (t, a, ht, omega arith, e)

Outgoing-later :
    {m n : ℕ} → m ≤ n → (b : List ℕ) → Outgoing (ReplyUpTo m) b → Outgoing (ReplyUpTo n) b
Outgoing-later h b (f, p, s, e) = (f, ReplyUpTo-later h f p, s, e)

-- What a NAK leaves alone.
pub record Kept (r r' : Receiver) : Type 0 where
  pub rn_kept : r'.rn ≡ r.rn
  pub output_kept : r'.output ≡ r.output
  pub marked_kept : r'.marked ≡ r.marked
  pub buffer_kept : r'.buffer ≡ r.buffer
  pub idle_kept : r'.ack_needed ≡ r.ack_needed
  pub stopped_kept : r'.stopped ≡ r.stopped

pub nak_unless_sent-Kept :
    (r : Receiver)
    → Kept r (nak_unless_sent r).0 × All (Outgoing (ReplyUpTo r.rn)) (nak_unless_sent r).1
unfolding nak_unless_sent
nak_unless_sent-Kept r = elim (Bool-cases r.nak_sent) [
  | inl e ↦ rw e (
    record {
      rn_kept = refl;
      output_kept = refl;
      marked_kept = refl;
      buffer_kept = refl;
      idle_kept = refl;
      stopped_kept = refl;
    },
    tt,
  )
  | inr e ↦ rw e (
    record {
      rn_kept = refl;
      output_kept = refl;
      marked_kept = refl;
      buffer_kept = refl;
      idle_kept = refl;
      stopped_kept = refl;
    },
    (Outgoing-reply r.rn frame_nak r.rn (omega arith) (omega arith), tt),
  )
]

pub Kept-ReceiverInv :
    {file : List ℕ} {r r' : Receiver} → Kept r r' → ReceiverInv file r → ReceiverInv file r'
Kept-ReceiverInv {file} {r} {r'} k v = record {
  in_range = omega (arith, k.rn_kept, v.in_range);
  written = k.output_kept ∙ v.written ∙ ap (λ n. take (44 * n) file) (sym k.rn_kept);
  waiting = rw (k.marked_kept, k.rn_kept) v.waiting;
  idle = k.idle_kept ∙ v.idle;
  buffered = λ i lt m. rw (k.buffer_kept, k.rn_kept) (v.buffered i lt (rw k.marked_kept at m));
  going = λ e. omega (arith, k.rn_kept, v.going (sym k.stopped_kept ∙ e));
  whole = λ e. omega (arith, k.rn_kept, v.whole (sym k.stopped_kept ∙ e));
}

module _ (file : List ℕ) where
  acknowledge-ReceiverInv :
      (r : Receiver) (eot : Bool)
      → LoopInv file r eot
      → r.marked (r.rn % 256) ≡ false
      → r.stopped ≡ false
      → ReceiverInv file (acknowledge r eot).0
        × ((acknowledge r eot).0.rn ≡ r.rn)
        × All (Outgoing (ReplyUpTo r.rn)) (acknowledge r eot).1
  unfolding acknowledge
  acknowledge-ReceiverInv r eot v free on = elim (Bool-cases r.ack_needed) [
    | inl due ↦ rw due (
      record {
        in_range = v.near;
        written = v.output_so_far;
        waiting = free;
        idle = refl;
        buffered = v.held;
        going = v.more;
        whole = λ e. (v.over e).0;
      },
      refl,
      (Outgoing-reply r.rn frame_ack r.rn (omega arith) (omega arith), tt),
    )
    | inr none_due ↦ rw none_due (
      record {
        in_range = v.near;
        written = v.output_so_far;
        waiting = free;
        idle = refl;
        buffered = v.held;
        going = λ e. v.more (quiet none_due eot refl);
        whole = λ e. absurd (false≢true (sym on ∙ e));
      },
      refl,
      tt,
    )
  ]
    where
      quiet : r.ack_needed ≡ false → (b : Bool) → eot ≡ b → eot ≡ false
      quiet e true is_true = absurd (false≢true (sym e ∙ (v.over is_true).1))
      quiet e false is_false = is_false

  -- What is left of a receiver's turn: the invariant, and replies that name nothing behind `rn`.
  abbrev pub Turned : Receiver → Receiver × List (List ℕ) → Type 0
  Turned r t = ReceiverInv file t.0 × (r.rn ≤ t.0.rn) × All (Outgoing (ReplyUpTo t.0.rn)) t.1

  module _ (small : length file ≤ 44 * 65534) (sw : ℕ) (narrow : sw ≤ 256) where
    -- The part of `on_data` behind the NAK.
    finish-Turned :
        (r : Receiver) (f : Frame)
        → ReceiverInv file r
        → r.stopped ≡ false
        → Genuine file f
        → Turned r (acknowledge (take_in sw r f).0 (take_in sw r f).1)
    finish-Turned r f v on g =
        let (taken, free, le) = take_in-LoopInv file small sw r f narrow v on g in
        let (v', same, out) =
          acknowledge-ReceiverInv (take_in sw r f).0 (take_in sw r f).1 taken free
            (stopped-take_in sw r f ∙ on) in
        (v', omega (arith, same, le), rw same out)

    on_data-Turned :
        (r : Receiver) (f : Frame)
        → ReceiverInv file r
        → r.stopped ≡ false
        → Genuine file f
        → Turned r (on_data sw r f)
    unfolding on_data
    on_data-Turned r f v on g = elim (Bool-cases (f.header.frame_seq == r.rn)) [
      | inl expected ↦ rw expected (finish-Turned r f v on g)
      | inr other ↦
          let (kept, nak) = nak_unless_sent-Kept r in
          let (v', le, out) =
            finish-Turned (nak_unless_sent r).0 f (Kept-ReceiverInv kept v) (kept.stopped_kept ∙ on)
              g in
          rw other (
            v',
            omega (arith, le, kept.rn_kept),
            All-append (Outgoing (ReplyUpTo _)) _ _
                (All-map (Outgoing (ReplyUpTo r.rn)) (Outgoing (ReplyUpTo _)) _
                  (λ b. Outgoing-later (omega (arith, le, kept.rn_kept)) b) nak)
                out,
          )
    ]

    -- One frame from the wire.
    pub on_frame-Turned :
        (r : Receiver) {b : List ℕ}
        → r.stopped ≡ false
        → ReceiverInv file r
        → Flight (Genuine file) b
        → Turned r (on_frame sw r b)
    unfolding on_frame corrupted
    on_frame-Turned r {b} on v fl = elim (Bool-cases (fcs_matches b)) [
      | inr bad ↦
          let (kept, nak) = nak_unless_sent-Kept r in
          let v' = Kept-ReceiverInv kept v in
          rw bad (
            record {
              in_range = v'.in_range;
              written = v'.written;
              waiting = v'.waiting;
              idle = v'.idle;
              buffered = v'.buffered;
              going = v'.going;
              whole = v'.whole;
            },
            omega (arith, kept.rn_kept),
            rw kept.rn_kept nak,
          )
      | inl ok ↦ elim (Bool-cases ((of_bytes b).header.frame_type == frame_data)) [
        | inl data_frame ↦
            rw (ok, data_frame)
              (on_data-Turned r (of_bytes b) v on (Flight-of_bytes (Genuine file) fl ok))
        | inr other ↦ rw (ok, other) (v, omega arith, tt)
      ]
    ]
