-- ===== src/Lab2/StopAndWait/Replies.antt =====
-- lab2/arq/receiver.c, Stop-and-Wait: what one frame does to the receiver.
use network_lab.Prelude.{
  ℕ, ◌+◌, ◌-◌, ◌*◌, ◌%◌, ◌≤◌, ◌<◌, ◌≡◌, ◌≢◌, refl, ap, ◌⊎◌, inl, inr, true, false, List, ◌==◌,
  length, take, arith, Bool-cases, All,
}
use network_lab.Lab1.Frame.{Frame, to_bytes, of_bytes}
use network_lab.Lab1.Frame.Seal.{fcs_matches}
use network_lab.Lab2.Arq.{frame_data, frame_ack, make_frame, reply_frame}
use network_lab.Lab2.Arq.Frames.{chunk}
use network_lab.Lab2.Arq.Genuine.{reply_frame-IsSealed}
use network_lab.Lab2.Arq.Payload.{chunk_frame-seq, chunk_frame-len, chunk_frame-type, written-chunk}
use network_lab.Lab2.Channel.Flight.{Flight, Outgoing, Flight-of_bytes}
use network_lab.Lab2.StopAndWait.Receiver.{Receiver, deliver, corrupted, send_ack, on_frame}

-- An acknowledgement with this number.
abbrev pub Ack : ℕ → Frame → Type 0
Ack p f = f ≡ reply_frame frame_ack p

Outgoing-Ack : {p q : ℕ} → q ≡ p → Outgoing (Ack p) (to_bytes (reply_frame frame_ack q))
Outgoing-Ack {p} {q} e =
    (reply_frame frame_ack q, ap (reply_frame frame_ack) e, reply_frame-IsSealed q, refl)

-- The frame with chunk `a` of the file, numbered by its parity.
abbrev pub ThisFrame : List ℕ → ℕ → Frame → Type 0
ThisFrame file a f = f ≡ make_frame frame_data (a % 2) (chunk file a)

-- The receiver stays as it is and sends at most the acknowledgement of the frame before.
abbrev pub Unmoved : Receiver → Receiver × List (List ℕ) → Type 0
Unmoved r t =
    (t.0.rn ≡ r.rn)
    × (t.0.output ≡ r.output)
    × (t.0.stopped ≡ r.stopped)
    × All (Outgoing (Ack ((r.rn + 2 - 1) % 2))) t.1

on_frame-bad : (r : Receiver) (b : List ℕ) → fcs_matches b ≡ false → Unmoved r (on_frame r b)
unfolding on_frame send_ack corrupted
on_frame-bad r b bad = rw bad (refl, refl, refl, (Outgoing-Ack refl, tt))

-- A frame that is not the expected one, damaged or not.
pub on_frame-other :
    (r : Receiver) {b : List ℕ}
    → Flight (λ f. f.header.frame_seq ≢ r.rn) b
    → Unmoved r (on_frame r b)
unfolding on_frame send_ack
on_frame-other r {b} fl = elim (Bool-cases (fcs_matches b)) [
  | inr bad ↦ on_frame-bad r b bad
  | inl ok ↦ elim (Bool-cases ((of_bytes b).header.frame_type == frame_data)) [
    | inr strange ↦ rw (ok, strange) (refl, refl, refl, tt)
    | inl is_data ↦
        let ne = Flight-of_bytes (λ f. f.header.frame_seq ≢ r.rn) fl ok in
        let other : ((of_bytes b).header.frame_seq == r.rn) ≡ false = ground (arith, ne) in
        rw (ok, is_data, other) (refl, refl, refl, (Outgoing-Ack refl, tt))
  ]
]

-- The expected frame has arrived whole.
pub record Delivered (file : List ℕ) (a : ℕ) (r : Receiver) (t : Receiver × List (List ℕ))
    : Type 0 where
  pub rn_moves : t.0.rn ≡ (a + 1) % 2
  pub output_grows : t.0.output ≡ take (44 * a + 44) file
  pub stops_last : t.0.stopped ≡ true → length file ≤ 44 * a
  pub goes_on : t.0.stopped ≡ false → 44 * a < length file
  pub acked : All (Outgoing (Ack (a % 2))) t.1

-- The frame that the receiver waits for: it is delivered, or damaged and dropped.
pub on_frame-expected :
    (file : List ℕ) (a : ℕ) (r : Receiver) {b : List ℕ}
    → r.rn ≡ a % 2
    → r.output ≡ take (44 * a) file
    → Flight (ThisFrame file a) b
    → Unmoved r (on_frame r b) ⊎ ((fcs_matches b ≡ true) × Delivered file a r (on_frame r b))
unfolding on_frame send_ack deliver
on_frame-expected file a r {b} at out fl = elim (Bool-cases (fcs_matches b)) [
  | inr bad ↦ inl (on_frame-bad r b bad)
  | inl ok ↦
      let this = Flight-of_bytes (ThisFrame file a) fl ok in
      let seq = chunk_frame-seq file a (a % 2) this (omega arith) in
      let len = chunk_frame-len file a (a % 2) this in
      let type : (of_bytes b).header.frame_type ≡ frame_data =
        chunk_frame-type file a (a % 2) this in
      let is_data : ((of_bytes b).header.frame_type == frame_data) ≡ true = ground arith in
      let back : ((r.rn + 1) % 2 + 2 - 1) % 2 ≡ a % 2 = omega arith in
      let expected : ((of_bytes b).header.frame_seq == r.rn) ≡ true = ground arith in
      inr (
        ok,
        rw (ok, is_data, expected)
            (record {
              rn_moves = omega arith;
              output_grows = written-chunk file a (a % 2) this out;
              stops_last = λ e. ground (arith, len);
              goes_on = λ e. ground (arith, len);
              acked = (Outgoing-Ack back, tt);
            }),
      )
]
