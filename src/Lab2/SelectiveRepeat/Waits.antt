-- ===== src/Lab2/SelectiveRepeat/Waits.antt =====
-- lab2/arq/sender.c, Selective Repeat: a sender with a full window that ignores what it is told.
use network_lab.Prelude.{
  ℕ, ◌+◌, ◌-◌, ◌%◌, ◌^◌, ◌≤◌, ◌<◌, ◌≡◌, refl, sym, ap, ◌∙◌, ◌⊎◌, inl, inr, true, false, Option,
  none, some, List, [], ◌∷◌, length, leb, arith, All, Bool-cases, lt→ltb,
}
use mathlib.Core.Option.{none-ne-some}
use mathlib.Core.Path.{subst}
use network_lab.Lab1.Frame.{Frame, of_bytes}
use network_lab.Lab1.Frame.Seal.{fcs_matches}
use network_lab.Lab2.Arq.{Call, Select, failed, timeout, arrived, frame_ack, frame_nak, reply_frame}
use network_lab.Lab2.Arq.Calls.{sends}
use network_lab.Lab2.Arq.Frames.{make_frame-fields}
use network_lab.Lab2.Arq.Reports.{Told}
use network_lab.Lab2.Arq.Window.{Phase, sending}
use network_lab.Lab2.Channel.Flight.{IsSealed, Flight, Outgoing, Flight-of_bytes}
use network_lab.Lab2.SelectiveRepeat.Sender.{
  Sender, rto_ns, resend, on_nak, on_ack, on_reply, on_replies, resend_earliest, sr_wait_step, wait,
  main_round, round_in, round,
}
use network_lab.Lab2.SelectiveRepeat.SenderInv.{earliest-in_window}

-- A frame before number `n`.
abbrev pub Past : ℕ → Frame → Type 0
Past n f = f.header.frame_seq < n

-- A reply that a sender with the window from `sf` to `n` ignores.
abbrev pub StaleReply : ℕ → ℕ → Frame → Type 0
StaleReply sf n f =
    (f ≡ reply_frame frame_nak n) ⊎ ((a : ℕ) × (a ≤ sf) × (f ≡ reply_frame frame_ack a))

-- The window is full of frames that the receiver has, and no news of that is on its way.
pub record TxWaits (file : List ℕ) (n : ℕ) (s : Sender) : Type 0 where
  pub in_main_loop : s.phase ≡ sending
  pub data_left : s.offset < length file
  pub window_full : s.sf + s.sw ≤ s.sn
  pub upper : s.sn ≡ n
  pub lower : s.sf ≤ n
  pub stored :
      (i : ℕ)
      → s.sf ≤ i
      → i < s.sn
      → Past n (s.frame_store (i % s.sw)) × IsSealed (s.frame_store (i % s.sw))

-- What the sender reads in a stale reply.
stale_fields :
    (sf n : ℕ) (f : Frame)
    → n < 2 ^ 16
    → sf ≤ n
    → StaleReply sf n f
    → ((f.header.frame_type ≡ frame_nak) × (f.header.frame_seq ≡ n))
      ⊎ ((f.header.frame_type ≡ frame_ack) × (f.header.frame_seq ≤ sf))
unfolding reply_frame
stale_fields sf n f small le (inl e) =
    let (t, q, l) = make_frame-fields frame_nak n [] (omega arith) small in
    inl (ap (λ g. g.header.frame_type) e ∙ t, ap (λ g. g.header.frame_seq) e ∙ q)
stale_fields sf n f small le (inr (a, h, e)) =
    let (t, q, l) = make_frame-fields frame_ack a [] (omega arith) (omega arith) in
    inr (ap (λ g. g.header.frame_type) e ∙ t, omega (arith, ap (λ g. g.header.frame_seq) e, q))

module _ (file : List ℕ) (n : ℕ) (small : n < 2 ^ 16) where
  on_reply_stale :
      (time : ℕ) (s : Sender) (b : List ℕ)
      → TxWaits file n s
      → Flight (StaleReply s.sf n) b
      → on_reply time s b ≡ (s, [])
  unfolding on_reply on_nak on_ack
  on_reply_stale time s b v fl = elim (Bool-cases (fcs_matches b)) [
    | inr bad ↦ rw bad
    | inl ok ↦
        elim (stale_fields s.sf n (of_bytes b) small v.lower
          (Flight-of_bytes (StaleReply s.sf n) fl ok)) [
            | inl (t, q) ↦ let above = v.upper in rw (ok, t, q) (ground arith)
            | inr (t, le) ↦ rw (ok, t) (ground arith)
          ]
  ]

  on_replies_stale :
      (clock : ℕ → ℕ) (i : ℕ) (s : Sender) (bs : List (List ℕ))
      → TxWaits file n s
      → All (Flight (StaleReply s.sf n)) bs
      → on_replies clock i s bs ≡ (s, [])
  unfolding on_replies
  on_replies_stale clock i s [] v fl = refl
  on_replies_stale clock i s (b ∷ bs) v fl =
      rw (on_reply_stale (clock (i + 1)) s b v fl.0, on_replies_stale clock (i + 1) s bs v fl.1)

  -- What a round leaves: the sender still waits, and sends frames of its window only.
  abbrev pub Waited : Sender → Sender × List Call → Type 0
  Waited s t = TxWaits file n t.0 × (t.0.sf ≡ s.sf) × All (Outgoing (Past n)) (sends t.1)

  resend_earliest-Waited :
      (time : ℕ) (s : Sender) (found : Option ℕ)
      → TxWaits file n s
      → ((q : ℕ) → found ≡ some q → (s.sf ≤ q) × (q < s.sn))
      → Waited s (resend_earliest time s found)
  unfolding resend_earliest resend sends
  resend_earliest-Waited time s none v h = (v, refl, tt)
  resend_earliest-Waited time s (some q) v h =
      let (lo, hi) = h q refl in
      let (past, sealed) = v.stored q lo hi in
      (
        record {
          in_main_loop = v.in_main_loop;
          data_left = v.data_left;
          window_full = v.window_full;
          upper = v.upper;
          lower = v.lower;
          stored = v.stored;
        },
        refl,
        ((s.frame_store (q % s.sw), past, sealed, refl), tt),
      )

  wait-Waited :
      (clock : ℕ → ℕ) (s : Sender) (sel : Select)
      → TxWaits file n s
      → Told (StaleReply s.sf n) ⊥ sel
      → Waited s (wait clock s sel)
  unfolding wait sr_wait_step
  wait-Waited clock s failed v t = (v, refl, unfold sends in tt)
  wait-Waited clock s timeout v t = resend_earliest-Waited (clock 1) s _ v (λ q e.
      let le = v.lower in
      let top = v.upper in
      earliest-in_window s.timers s.sw (clock 0) (s.sn - s.sf) s.sf rto_ns none s.sf s.sn
        (omega arith) (omega arith) (λ p bad. absurd (none-ne-some p bad)) q e)
  wait-Waited clock s (arrived frames false) v t =
      rw (on_replies_stale clock 0 s frames v t.0) (v, refl, unfold sends in tt)
  wait-Waited clock s (arrived frames true) v t = absurd (t.1 refl)

  pub round-Waited :
      (clock : ℕ → ℕ) (s : Sender) (sel : Select)
      → TxWaits file n s
      → Told (StaleReply s.sf n) ⊥ sel
      → Waited s (round clock file s sel)
  unfolding round round_in main_round
  round-Waited clock s sel v t = subst Ends (sym v.in_main_loop) main_loop
    where
      Ends : Phase → Type 0
      Ends p = Waited s (round_in p clock file s sel)

      full : leb (s.sf + s.sw) s.sn ≡ true
      full = let le = v.window_full in ground arith

      main_loop : Ends sending
      main_loop = rw (lt→ltb s.offset (length file) v.data_left, full) (wait-Waited clock s sel v t)
