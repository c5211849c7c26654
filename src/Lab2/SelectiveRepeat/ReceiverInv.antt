-- ===== src/Lab2/SelectiveRepeat/ReceiverInv.antt =====
-- lab2/arq/receiver.c, Selective Repeat: the buffer holds frames of the file at their slots, and what
-- is written out is the beginning of the file.
use network_lab.Prelude.{
  ℕ, zero, suc, ◌+◌, ◌*◌, ◌%◌, ◌^◌, ◌≤◌, ◌<◌, ◌≡◌, refl, sym, ap, ◌∙◌, inl, inr, Bool, true, false,
  List, [], ◌||◌, ◌==◌, length, take, arith, Bool-cases,
}
use mathlib.Core.Bool.{false≢true}
use network_lab.Lab1.Frame.{Frame}
use network_lab.Lab2.Arq.{reply_frame}
use network_lab.Lab2.Arq.Frames.{nth_frame, make_frame-IsSealed}
use network_lab.Lab2.Arq.Genuine.{Genuine}
use network_lab.Lab2.Arq.Payload.{nth_frame-seq, nth_frame-len, written-append}
use network_lab.Lab2.Channel.Flight.{IsSealed}
use network_lab.Lab2.SelectiveRepeat.Receiver.{
  Receiver, buffer_frame, deliver, deliver_marked, in_window, take_in,
}
use network_lab.Lab2.SelectiveRepeat.Marks.{deliver_marked-stops}

-- A NAK or an acknowledgement that names no frame behind number `n`.
abbrev pub ReplyUpTo : ℕ → Frame → Type 0
ReplyUpTo n f = (t : ℕ) × (a : ℕ) × (t < 256) × (a ≤ n) × (f ≡ reply_frame t a)

pub reply_frame-IsSealed : (t a : ℕ) → t < 256 → IsSealed (reply_frame t a)
unfolding reply_frame
reply_frame-IsSealed t a h = make_frame-IsSealed t a [] h (omega arith) tt

-- Slot `i` holds a frame of the file that is waited for.
abbrev pub Held : List ℕ → ℕ → ℕ → Frame → Type 0
Held file rn i f =
    (k : ℕ) × (rn ≤ k)
    × (k < rn + 256)
    × (k % 256 ≡ i)
    × (44 * k < length file + 44)
    × (f ≡ nth_frame file k)

-- What holds in the delivery loop; `eot` is `eot_delivered`.
pub record LoopInv (file : List ℕ) (r : Receiver) (eot : Bool) : Type 0 where
  pub near : 44 * r.rn < length file + 88
  pub output_so_far : r.output ≡ take (44 * r.rn) file
  pub held : (i : ℕ) → i < 256 → r.marked i ≡ true → Held file r.rn i (r.buffer i)
  pub more : eot ≡ false → 44 * r.rn < length file + 44
  pub over : eot ≡ true → (length file + 44 ≤ 44 * r.rn) × (r.ack_needed ≡ true)

-- Delivery does not leave the loop of the function.
stopped-deliver_marked :
    (fuel : ℕ) (r : Receiver) (eot : Bool) → (deliver_marked fuel r eot).0.stopped ≡ r.stopped
unfolding deliver_marked deliver
stopped-deliver_marked zero r eot = refl
stopped-deliver_marked (suc fuel) r eot = elim (Bool-cases (r.marked (r.rn % 256))) [
  | inr stop ↦ rw stop refl
  | inl go ↦ rw go (stopped-deliver_marked fuel (deliver r) _)
]

pub stopped-take_in : (sw : ℕ) (r : Receiver) (f : Frame) → (take_in sw r f).0.stopped ≡ r.stopped
unfolding take_in buffer_frame
stopped-take_in sw r f = elim (Bool-cases (in_window sw r f.header.frame_seq)) [
  | inr out ↦ rw out refl
  | inl inw ↦ rw inw (stopped-deliver_marked 256 (buffer_frame r f) false)
]

-- Between two frames nothing can be delivered, and no acknowledgement is due.
pub record ReceiverInv (file : List ℕ) (r : Receiver) : Type 0 where
  pub in_range : 44 * r.rn < length file + 88
  pub written : r.output ≡ take (44 * r.rn) file
  pub waiting : r.marked (r.rn % 256) ≡ false
  pub idle : r.ack_needed ≡ false
  pub buffered : (i : ℕ) → i < 256 → r.marked i ≡ true → Held file r.rn i (r.buffer i)
  pub going : r.stopped ≡ false → 44 * r.rn < length file + 44
  pub whole : r.stopped ≡ true → length file + 44 ≤ 44 * r.rn

module _ (file : List ℕ) (small : length file ≤ 44 * 65534) where
  deliver-LoopInv :
      (r : Receiver) (eot : Bool)
      → LoopInv file r eot
      → r.marked (r.rn % 256) ≡ true
      → LoopInv file (deliver r) (eot || ((r.buffer (r.rn % 256)).header.frame_len == 0))
        × (r.rn ≤ (deliver r).rn)
  unfolding deliver
  deliver-LoopInv r eot v on =
      let (k, above, below, at, inside, is_nth) = v.held (r.rn % 256) (omega arith) on in
      let number : k ≡ r.rn = omega arith in
      let len = nth_frame-len file k is_nth in
      let next : (r.rn + 1) % 2 ^ 16 ≡ r.rn + 1 = omega arith in
      (
        record {
          near = omega (arith, next, number, inside);
          output_so_far =
              written-append file r.rn v.output_so_far (is_nth ∙ ap (nth_frame file) number)
              ∙ ap (λ m. take m file) (omega (arith, next));
          held = λ i lt m. kept i lt next m;
          more = λ e. ground (arith, e, len, next, number, v.more);
          over = λ e. (ground (arith, e, len, next, number, v.over, inside), refl);
        },
        omega (arith, next),
      )
    where
      kept :
          (i : ℕ)
          → i < 256
          → (r.rn + 1) % 2 ^ 16 ≡ r.rn + 1
          → (deliver r).marked i ≡ true
          → Held file (deliver r).rn i (r.buffer i)
      kept i lt next m = elim (Bool-cases (i == r.rn % 256)) [
        | inl same ↦ absurd (false≢true (sym (rw same refl) ∙ m))
        | inr other ↦
            let (k, above, below, at, inside, is_nth) = v.held i lt (ground (arith, m, other)) in
            (k, ground (arith, next), omega (arith, next), at, inside, is_nth)
      ]

  deliver_marked-LoopInv :
      (fuel : ℕ) (r : Receiver) (eot : Bool)
      → LoopInv file r eot
      → LoopInv file (deliver_marked fuel r eot).0 (deliver_marked fuel r eot).1
        × (r.rn ≤ (deliver_marked fuel r eot).0.rn)
  unfolding deliver_marked
  deliver_marked-LoopInv zero r eot v = (v, omega arith)
  deliver_marked-LoopInv (suc fuel) r eot v = elim (Bool-cases (r.marked (r.rn % 256))) [
    | inr stop ↦ rw stop (v, omega arith)
    | inl go ↦
        let (v', le) = deliver-LoopInv r eot v go in
        let (v'', le') = deliver_marked-LoopInv fuel (deliver r) _ v' in
        rw go (v'', omega (arith, le, le'))
  ]

  buffer_frame-LoopInv :
      (sw : ℕ) (r : Receiver) (f : Frame)
      → sw ≤ 256
      → ReceiverInv file r
      → r.stopped ≡ false
      → Genuine file f
      → in_window sw r f.header.frame_seq ≡ true
      → LoopInv file (buffer_frame r f) false
  unfolding buffer_frame in_window
  buffer_frame-LoopInv sw r f narrow v on (k, inside, is_nth) inw = record {
    near = v.in_range;
    output_so_far = v.written;
    held = kept;
    more = λ e. v.going on;
    over = λ e. absurd (false≢true e);
  }
    where
      seq : f.header.frame_seq ≡ k
      seq = nth_frame-seq file k is_nth (omega arith)

      kept :
          (i : ℕ)
          → i < 256
          → (buffer_frame r f).marked i ≡ true
          → Held file r.rn i ((buffer_frame r f).buffer i)
      kept i lt m = elim (Bool-cases (i == f.header.frame_seq % 256)) [
        | inl same ↦ rw same (
          k,
          ground (arith, inw, seq),
          ground (arith, inw, seq),
          ground (arith, same, seq),
          inside,
          is_nth,
        )
        | inr other ↦ rw other (v.buffered i lt (rw other at m))
      ]

  -- What the frame leaves behind: the state of the loop, nothing deliverable.
  pub take_in-LoopInv :
      (sw : ℕ) (r : Receiver) (f : Frame)
      → sw ≤ 256
      → ReceiverInv file r
      → r.stopped ≡ false
      → Genuine file f
      → LoopInv file (take_in sw r f).0 (take_in sw r f).1
        × ((take_in sw r f).0.marked ((take_in sw r f).0.rn % 256) ≡ false)
        × (r.rn ≤ (take_in sw r f).0.rn)
  unfolding take_in
  take_in-LoopInv sw r f narrow v on g = elim (Bool-cases (in_window sw r f.header.frame_seq)) [
    | inr out ↦ rw out (
      record {
        near = v.in_range;
        output_so_far = v.written;
        held = v.buffered;
        more = λ e. v.going on;
        over = λ e. absurd (false≢true e);
      },
      v.waiting,
      omega arith,
    )
    | inl inw ↦
        let (v', le) =
          deliver_marked-LoopInv 256 (buffer_frame r f) false
            (buffer_frame-LoopInv sw r f narrow v on g inw) in
        rw inw (v', deliver_marked-stops (buffer_frame r f) false, unfold buffer_frame in le)
  ]
