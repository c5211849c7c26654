-- ===== src/Lab2/GoBackN/Exchange.antt =====
-- lab2: one frame of a Go-Back-N transfer that arrives, and its acknowledgement, which is lost or read.
use network_lab.Prelude.{
  ℕ, ◌+◌, ◌^◌, ◌<◌, ◌≡◌, refl, ap, ◌∙◌, true, false, List, [], ◌∷◌, u16, u32, leb, ltb, ◌==◌, arith,
  ==_iff,
}
use mathlib.Core.Path.{subst}
use network_lab.Lab1.Frame.{Frame, to_bytes, of_bytes}
use network_lab.Lab1.Frame.Seal.{fcs_matches}
use network_lab.Lab2.Arq.{frame_data, frame_ack, reply_frame, Call, Select, timeout, arrived}
use network_lab.Lab2.Arq.Frames.{make_frame-fields}
use network_lab.Lab2.Arq.Genuine.{reply_frame-IsSealed}
use network_lab.Lab2.Channel.{Carries, quiet}
use network_lab.Lab2.Channel.Flight.{IsSealed}
use network_lab.Lab2.Channel.Clean.{sealed_lem, carried, dropped}
use network_lab.Lab2.GoBackN.Sender.{
  Sender, acknowledges, on_ack, on_acks, gbn_wait_step, wait, slide_to, round,
}
use network_lab.Lab2.GoBackN.Receiver.{Receiver, deliver, in_order, accept, on_frame}
use network_lab.Lab2.GoBackN.System as System
use network_lab.Lab2.GoBackN.System.{sends, expires, reads, Step, sender, receiver, Reach, next}
use network_lab.Lab2.GoBackN.Window.{Same, on_acks-Same, sf-slide_to}

-- Nothing is on its way.
abbrev pub still : Sender → Receiver → System.System
still tx rx = record { tx = tx; rx = rx; forward = []; backward = [] }

-- The receiver that has taken the frame.
unfoldable pub taken : Receiver → Frame → Receiver
taken rx f =
    let r = deliver rx f in
    record r { stats = record (r.stats) { acks_received = u32 (r.stats.acks_received + 1) } }

-- The acknowledgement for the frame that the receiver waits for then.
abbrev pub ack : Receiver → List ℕ
ack rx = to_bytes (reply_frame frame_ack (u16 (rx.rn + 1)))

module _ (file : List ℕ) (tx tx' : Sender) (rx : Receiver) (f : Frame) {calls : List Call}
    (turn : round file tx timeout ≡ (tx', calls)) (only : sends calls ≡ to_bytes f ∷ [])
    (sealed : IsSealed f) (is_data : f.header.frame_type ≡ frame_data)
    (seq : f.header.frame_seq ≡ rx.rn) (going : rx.stopped ≡ false) where
  send-Step : Step file (still tx rx) (record (still tx' rx) { forward = to_bytes f ∷ [] })
  send-Step =
      subst
        (λ r.
          Carries (sends r.1) (to_bytes f ∷ [])
          → Step file (still tx rx) (record (still r.0 rx) { forward = to_bytes f ∷ [] }))
        turn (λ c. sender expires c) (rw only (carried (to_bytes f)))

  on_frame_lem : on_frame rx (to_bytes f) ≡ (taken rx f, ack rx ∷ [])
  unfolding on_frame accept in_order taken deliver
  on_frame_lem =
      let (passes, back) = sealed_lem sealed in
      let typed : (f.header.frame_type == frame_data) ≡ true = (==_iff _ _).1 is_data in
      let awaited : (f.header.frame_seq == rx.rn) ≡ true = (==_iff _ _).1 seq in
      rw (back, passes, typed, awaited) refl

  receive-Step :
      {ws : List (List ℕ)}
      → Carries (ack rx ∷ []) ws
      → Step file
          (record (still tx' rx) { forward = to_bytes f ∷ [] })
          (record (still tx' (taken rx f)) { backward = ws })
  receive-Step {ws} =
      subst
        (λ r.
          Carries r.1 ws
          → Step file (record (still tx' rx) { forward = to_bytes f ∷ [] })
              (record (still tx' r.0) { backward = ws }))
        on_frame_lem (λ c. receiver going refl c)

  -- The frame arrives, and the acknowledgement is lost.
  pub unanswered :
      {s : System.System} → Reach file s (still tx rx) → Reach file s (still tx' (taken rx f))
  unanswered r = next (next r send-Step) (receive-Step (dropped (ack rx)))

  -- The frame arrives, and the acknowledgement is on its way back.
  pub answered :
      {s : System.System}
      → Reach file s (still tx rx)
      → Reach file s (record (still tx' (taken rx f)) { backward = ack rx ∷ [] })
  answered r = next (next r send-Step) (receive-Step (carried (ack rx)))

-- The sender reads an acknowledgement of all that it has sent.
module _ (file : List ℕ) (tx : Sender) (rx : Receiver) (a : ℕ) (fits : a < 2 ^ 16) (all : a ≡ tx.sn)
    (outstanding : tx.sf < a) (turn : (sel : Select) → round file tx sel ≡ wait tx sel) where
  abbrev pub reply : List ℕ
  reply = to_bytes (reply_frame frame_ack a)

  unfoldable pub acked : Sender
  acked = (on_acks tx (reply ∷ [])).0

  pub acked-Same : Same tx acked
  unfolding acked
  acked-Same = (on_acks-Same tx (reply ∷ [])).0

  reply_fields :
      (fcs_matches reply ≡ true)
      × ((of_bytes reply).header.frame_type ≡ frame_ack)
      × ((of_bytes reply).header.frame_seq ≡ a)
  reply_fields =
      let (passes, back) = sealed_lem (reply_frame-IsSealed a) in
      let (t, n, l) = make_frame-fields frame_ack a [] (omega arith) fits in
      (passes, rw back (unfold reply_frame in t), rw back (unfold reply_frame in n))

  acknowledges_lem : acknowledges tx reply ≡ true
  unfolding acknowledges
  acknowledges_lem =
      let (passes, t, n) = reply_fields in
      let above : ltb tx.sf a ≡ true = ground arith in
      let within : leb a tx.sn ≡ true = ground arith in rw (passes, t, n, above, within) refl

  pub acked-sf : acked.sf ≡ a
  unfolding acked on_acks on_ack
  acked-sf =
      rw (acknowledges_lem, acked)
        (ap (λ n. (slide_to n tx).0.sf) reply_fields.2 ∙ sf-slide_to tx a outstanding fits)

  wait_lem : wait tx (arrived (reply ∷ []) false) ≡ (acked, (on_acks tx (reply ∷ [])).1)
  unfolding wait gbn_wait_step acked
  wait_lem = refl

  pub reply-Step : Step file (record (still tx rx) { backward = reply ∷ [] }) (still acked rx)
  reply-Step =
      subst
        (λ r.
          Carries (sends r.1) []
          → Step file (record (still tx rx) { backward = reply ∷ [] }) (still r.0 rx))
        (turn (arrived (reply ∷ []) false) ∙ wait_lem) (λ c. sender (reads (reply ∷ []) []) c)
        (rw (on_acks-Same tx (reply ∷ [])).1 quiet)
