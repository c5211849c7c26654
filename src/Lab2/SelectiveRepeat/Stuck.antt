-- ===== src/Lab2/SelectiveRepeat/Stuck.antt =====
-- lab2/arq, Selective Repeat: a transfer that can no longer go on, because the acknowledgements of a
-- full window are lost and the receiver does not send them again.
use network_lab.Prelude.{
  ℕ, ◌^◌, ◌≤◌, ◌<◌, ◌≡◌, refl, sym, ◌∙◌, inl, inr, Bool, false, List, [], ◌∷◌, ◌==◌, leb, arith,
  All, All-append, Bool-cases,
}
use mathlib.Core.Bool.{false≢true}
use mathlib.Core.List.{append-nil}
use mathlib.Core.Path.{subst}
use network_lab.Lab1.Frame.{Frame, of_bytes}
use network_lab.Lab1.Frame.Seal.{fcs_matches}
use network_lab.Lab2.Arq.{frame_data, frame_nak, reply_frame}
use network_lab.Lab2.Arq.Reports.{Reports-Told}
use network_lab.Lab2.Arq.Window.{sending}
use network_lab.Lab2.Channel.Flight.{Flight, Outgoing, Flight-of_bytes, Carries-Flight}
use network_lab.Lab2.SelectiveRepeat.Receiver.{
  Receiver, window, nak_unless_sent, corrupted, in_window, take_in, acknowledge, on_data, on_frame,
}
use network_lab.Lab2.SelectiveRepeat.ReceiverInv.{reply_frame-IsSealed}
use network_lab.Lab2.SelectiveRepeat.Waits.{Past, StaleReply, TxWaits, round-Waited}
use network_lab.Lab2.SelectiveRepeat.System.{System, Step, sender, receiver, Reach, here, next}

pub record AcksLost (file : List ℕ) (s : System) : Type 0 where
  pub tx_waits : TxWaits file s.rx.rn s.tx
  pub fits : s.rx.rn < 2 ^ 16
  pub runs : s.rx.stopped ≡ false
  pub idle : s.rx.ack_needed ≡ false
  pub forward_past : All (Flight (Past s.rx.rn)) s.forward
  pub backward_stale : All (Flight (StaleReply s.tx.sf s.rx.rn)) s.backward

-- What a frame from before the window leaves in the receiver.
abbrev Ignored : ℕ → Receiver → Receiver × List (List ℕ) → Type 0
Ignored sf r t =
    (t.0.rn ≡ r.rn)
    × (t.0.output ≡ r.output)
    × (t.0.stopped ≡ r.stopped)
    × (t.0.ack_needed ≡ r.ack_needed)
    × All (Outgoing (StaleReply sf r.rn)) t.1

nak-Ignored : (sf : ℕ) (r : Receiver) → Ignored sf r (nak_unless_sent r)
unfolding nak_unless_sent
nak-Ignored sf r = elim (Bool-cases r.nak_sent) [
  | inl e ↦ rw e (refl, refl, refl, refl, tt)
  | inr e ↦ rw e (
    refl,
    refl,
    refl,
    refl,
    (
      (
        reply_frame frame_nak r.rn,
        inl refl,
        reply_frame-IsSealed frame_nak r.rn (omega arith),
        refl,
      ),
      tt,
    ),
  )
]

take_in-Past : (sw : ℕ) (r : Receiver) (f : Frame) → Past r.rn f → take_in sw r f ≡ (r, false)
unfolding take_in in_window
take_in-Past sw r f past =
    let outside : leb r.rn f.header.frame_seq ≡ false = ground arith in rw outside

acknowledge_idle : (r : Receiver) (eot : Bool) → r.ack_needed ≡ false → acknowledge r eot ≡ (r, [])
unfolding acknowledge
acknowledge_idle r eot idle = simp idle

on_data-Ignored :
    (sf sw : ℕ) (r : Receiver) (f : Frame)
    → Past r.rn f
    → r.ack_needed ≡ false
    → Ignored sf r (on_data sw r f)
unfolding on_data
on_data-Ignored sf sw r f past idle =
    let (rn, out, stopped, ack, replies) = nak-Ignored sf r in
    let other : (f.header.frame_seq == r.rn) ≡ false = ground arith in
    rw
      (
        other,
        take_in-Past sw (nak_unless_sent r).0 f (omega (arith, rn)),
        acknowledge_idle (nak_unless_sent r).0 false (ack ∙ idle),
        append-nil (nak_unless_sent r).1,
      )
      (rn, out, stopped, ack, replies)

on_frame-Ignored :
    (sf sw : ℕ) (r : Receiver) {b : List ℕ}
    → Flight (Past r.rn) b
    → r.ack_needed ≡ false
    → Ignored sf r (on_frame sw r b)
unfolding on_frame corrupted
on_frame-Ignored sf sw r {b} fl idle = elim (Bool-cases (fcs_matches b)) [
  | inr bad ↦ rw bad (nak-Ignored sf r)
  | inl ok ↦ elim (Bool-cases ((of_bytes b).header.frame_type == frame_data)) [
    | inl is_data ↦
        rw (ok, is_data)
          (on_data-Ignored sf sw r (of_bytes b) (Flight-of_bytes (Past r.rn) fl ok) idle)
    | inr other ↦ rw (ok, other) (refl, refl, refl, refl, tt)
  ]
]

-- What stays as it is from there on.
abbrev Halted : System → System → Type 0
Halted s t =
    (t.rx.rn ≡ s.rx.rn)
    × (t.rx.output ≡ s.rx.output)
    × (t.rx.stopped ≡ false)
    × (t.tx.phase ≡ sending)
    × (t.tx.sf ≡ s.tx.sf)

Step-AcksLost :
    {window_size : ℕ} {file : List ℕ} {s t : System}
    → Step window_size file s t
    → AcksLost file s
    → AcksLost file t × Halted s t
Step-AcksLost {window_size} {file} {s} (sender {sel} {rest} {ws} clock reports carries) v =
    let told =
      Reports-Told (StaleReply s.tx.sf s.rx.rn) ⊥ reports (λ e. false≢true (sym v.runs ∙ e))
        v.backward_stale in
    let (waits, same, out) = round-Waited file s.rx.rn v.fits clock s.tx sel v.tx_waits told.0 in
    (
      record {
        tx_waits = waits;
        fits = v.fits;
        runs = v.runs;
        idle = v.idle;
        forward_past =
            All-append (Flight (Past s.rx.rn)) s.forward ws v.forward_past
              (Carries-Flight (Past s.rx.rn) carries out);
        backward_stale = rw same told.1;
      },
      (refl, refl, v.runs, waits.in_main_loop, same),
    )
Step-AcksLost {window_size} {file} {s} (receiver {b} {rest} {ws} on e carries) v = (
  record {
    tx_waits = rw done.0 v.tx_waits;
    fits = rw done.0 v.fits;
    runs = done.2 ∙ v.runs;
    idle = done.3 ∙ v.idle;
    forward_past = rw done.0 wire.1;
    backward_stale = rw done.0 (
        All-append (Flight (StaleReply s.tx.sf s.rx.rn)) s.backward ws v.backward_stale
          (Carries-Flight (StaleReply s.tx.sf s.rx.rn) carries done.4));
  },
  (done.0, done.1, done.2 ∙ v.runs, v.tx_waits.in_main_loop, refl),
)
  where
    wire : All (Flight (Past s.rx.rn)) (b ∷ rest)
    wire = subst (All (Flight (Past s.rx.rn))) e v.forward_past

    done : Ignored s.tx.sf s.rx (on_frame (window window_size) s.rx b)
    done = on_frame-Ignored s.tx.sf (window window_size) s.rx wire.0 v.idle

Reach-AcksLost :
    {window_size : ℕ} {file : List ℕ} {s t : System}
    → Reach window_size file s t
    → AcksLost file s
    → AcksLost file t × Halted s t
Reach-AcksLost here v = (v, (refl, refl, v.runs, v.tx_waits.in_main_loop, refl))
Reach-AcksLost (next r st) v =
    let (u, (rn, out, _, _, sf)) = Reach-AcksLost r v in
    let (t, (rn', out', on, ph, sf')) = Step-AcksLost st u in
    (t, (rn' ∙ rn, out' ∙ out, on, ph, sf' ∙ sf))

-- From a state in which the sender has data left and its window is full of sealed frames that the
-- receiver has all delivered, with only frames before the expected one on the way to the receiver and
-- only a NAK for the expected frame or acknowledgements that are no news on the way back, a Selective
-- Repeat transfer with a window size of at least 1 makes no progress: in every state that can follow, whatever the channels and the
-- clock do, the receiver has delivered nothing more and still runs, and the sender is still in its main
-- loop and its window has not moved.
pub no_progress :
    {window_size : ℕ} {file : List ℕ} {s t : System}
    → 1 ≤ window_size
    → AcksLost file s
    → Reach window_size file s t
    → (t.rx.rn ≡ s.rx.rn)
      × (t.rx.output ≡ s.rx.output)
      × (t.rx.stopped ≡ false)
      × (t.tx.phase ≡ sending)
      × (t.tx.sf ≡ s.tx.sf)
no_progress at_least lost r = (Reach-AcksLost r lost).1
