-- ===== src/Lab2/GoBackN/Overwrite.antt =====
-- lab2/arq/sender.c, Go-Back-N: the end-of-transmission frame is stored with no test that the window
-- has room for it.
use network_lab.Prelude.{
  ℕ, ◌+◌, ◌%◌, ◌^◌, ◌≤◌, ◌<◌, ◌≡◌, ◌≢◌, refl, sym, ap, ◌∙◌, ◌⊎◌, inl, inr, false, List, [], ◌∷◌,
  ◌==◌, length, arith, All, All-append, Bool-cases, ==_iff, ltb,
}
use mathlib.Core.Bool.{false≢true}
use mathlib.Core.Path.{subst}
use network_lab.Lab1.Frame.{to_bytes}
use network_lab.Lab2.Arq.{Select, frame_data, eot_frame}
use network_lab.Lab2.Arq.Frames.{make_frame-fields, make_frame-IsSealed}
use network_lab.Lab2.Channel.Flight.{IsSealed, Flight, Outgoing, Carries-Flight}
use network_lab.Lab2.Arq.Genuine.{AckUpTo}
use network_lab.Lab2.GoBackN.Sender.{
  sending, draining, finished, store, send_new, send_eot, main_round, round_in, round,
}
use network_lab.Lab2.GoBackN.Slots.{slot-wraps}
use network_lab.Lab2.GoBackN.Stuck.{Stray, SenderStuck, IsStuck, Step-IsStuck, Reports-OldNews}
use network_lab.Lab2.GoBackN.System.{System, sends, Step, sender, receiver, Reach, here, next}

-- All data frames are out, the window is full, and the receiver waits for the oldest of it, of which
-- no copy is on its way.
pub record IsFull (file : List ℕ) (s : System) : Type 0 where
  pub sends_eot : s.tx.phase ≡ sending
  pub all_sent : length file ≤ s.tx.offset
  pub window_full : s.tx.sn ≡ s.tx.sf + s.tx.sw
  pub window_pos : 0 < s.tx.sw
  pub no_wrap : s.tx.sn + 1 < 2 ^ 16
  pub lacks : s.tx.sf ≡ s.rx.rn
  pub runs : s.rx.stopped ≡ false
  pub quiet_forward : s.forward ≡ []
  pub quiet_backward : s.backward ≡ []
  pub stored :
      (i : ℕ)
      → s.tx.sf ≤ i
      → i < s.tx.sn
      → ((s.tx.frame_store (i % s.tx.sw)).header.frame_seq ≡ i)
        × IsSealed (s.tx.frame_store (i % s.tx.sw))

eot_frame-IsSealed : (n : ℕ) → IsSealed (eot_frame n)
unfolding eot_frame
eot_frame-IsSealed n = make_frame-IsSealed frame_data n [] (omega arith) (omega arith) tt

eot_frame-seq : (n : ℕ) → n < 2 ^ 16 → (eot_frame n).header.frame_seq ≡ n
unfolding eot_frame
eot_frame-seq n h = (make_frame-fields frame_data n [] (omega arith) h).1

not_lt : (a b : ℕ) → b ≤ a → ltb a b ≡ false
not_lt a b h = ground arith

sending_ne_finished : sending ≢ finished
sending_ne_finished e = cc

draining_ne_finished : draining ≢ finished
draining_ne_finished e = cc

nil_ne_cons : {b : List ℕ} {bs : List (List ℕ)} → [] ≢ b ∷ bs
nil_ne_cons e = cc

module _ (file : List ℕ) {s : System} (full : IsFull file s) where
  differs :
      (i : ℕ)
      → (i % s.tx.sw == s.tx.sn % s.tx.sw) ≡ false
      → (j : ℕ) → s.tx.sn % s.tx.sw ≡ j % s.tx.sw
      → i ≢ j
  differs i e j same q = false≢true (sym e ∙ (==_iff _ _).1 (ap (λ k. k % s.tx.sw) q ∙ sym same))

  slots :
      (i : ℕ)
      → s.tx.sf ≤ i
      → i < s.tx.sn + 1
      → let f = store s.tx.frame_store (s.tx.sn % s.tx.sw) (eot_frame s.tx.sn) (i % s.tx.sw) in
        Stray s.rx.rn f × IsSealed f
  slots i lo hi = elim (Bool-cases (i % s.tx.sw == s.tx.sn % s.tx.sw)) [
    | inl e ↦ rw e (
      (λ q. absurd (
          omega (
            arith,
            q,
            eot_frame-seq s.tx.sn (omega (arith, full.no_wrap)),
            full.window_full,
            full.window_pos,
            full.lacks,
          ))),
      eot_frame-IsSealed s.tx.sn,
    )
    | inr e ↦
        let (seq, sealed) = full.stored i lo (omega (arith, differs i e (s.tx.sn) refl)) in
        rw e (
          (λ q.
              differs i e s.tx.sf (slot-wraps s.tx.sf s.tx.sw s.tx.sn full.window_full)
                (sym seq ∙ q ∙ sym full.lacks)),
          sealed,
        )
  ]

  send_eot-SenderStuck : SenderStuck s.rx.rn (send_eot s.tx).0
  unfolding send_eot send_new
  send_eot-SenderStuck = record {
    drains = refl;
    waits = full.lacks;
    open_window = omega (arith, full.no_wrap, full.window_full);
    stray = λ i lo hi. slots i lo (omega (arith, full.no_wrap));
  }

  send_eot-Outgoing : All (Outgoing (Stray s.rx.rn)) (sends (send_eot s.tx).1)
  unfolding send_eot send_new sends
  send_eot-Outgoing = elim (Bool-cases s.tx.timer_running) [
    | inl e ↦ rw e (outgoing, tt)
    | inr e ↦ rw e (outgoing, tt)
  ]
    where
      outgoing : Outgoing (Stray s.rx.rn) (to_bytes (eot_frame s.tx.sn))
      outgoing = (
        eot_frame s.tx.sn,
        (λ q. absurd (
            omega (
              arith,
              q,
              eot_frame-seq s.tx.sn (omega (arith, full.no_wrap)),
              full.window_full,
              full.window_pos,
              full.lacks,
            ))),
        eot_frame-IsSealed s.tx.sn,
        refl,
      )

  round-send_eot : (sel : Select) → round file s.tx sel ≡ send_eot s.tx
  unfolding round round_in main_round
  round-send_eot sel =
      subst (λ p. round_in p file s.tx sel ≡ send_eot s.tx) (sym full.sends_eot) (rw none_left)
    where
      none_left : ltb s.tx.offset (length file) ≡ false
      none_left = not_lt s.tx.offset (length file) full.all_sent

  IsFull-IsStuck :
      {t : System} → Step file s t → IsStuck t × (t.rx.rn ≡ s.rx.rn) × (t.rx.output ≡ s.rx.output)
  IsFull-IsStuck (sender {sel} {rest} {ws} reports carries) = (
    record {
      tx_stuck =
          subst (λ p. SenderStuck s.rx.rn p.0) (sym (round-send_eot sel)) send_eot-SenderStuck;
      runs = full.runs;
      fits = omega (arith, full.no_wrap, full.window_full, full.lacks);
      forward_stray =
          All-append (Flight (Stray s.rx.rn)) s.forward ws
            (subst (All (Flight (Stray s.rx.rn))) (sym full.quiet_forward) tt)
            (Carries-Flight (Stray s.rx.rn) carries (
              subst (λ p. All (Outgoing (Stray s.rx.rn)) (sends p.1)) (sym (round-send_eot sel))
                send_eot-Outgoing));
      backward_old =
          (Reports-OldNews s.rx.rn reports full.runs
            (subst (All (Flight (AckUpTo s.rx.rn))) (sym full.quiet_backward) tt)).1;
    },
    refl,
    refl,
  )
  IsFull-IsStuck (receiver {b} {rest} on e carries) =
      absurd (nil_ne_cons (sym full.quiet_forward ∙ e))

-- From such a state the system has not moved, or it is stuck.
Reach-either :
    {file : List ℕ} {s t : System}
    → IsFull file s
    → Reach file s t
    → (t ≡ s) ⊎ (IsStuck t × (t.rx.rn ≡ s.rx.rn) × (t.rx.output ≡ s.rx.output))
Reach-either full here = inl refl
Reach-either {file} {s} {t} full (next {t = u} r st) = go (Reach-either full r)
  where
    go :
        (u ≡ s) ⊎ (IsStuck u × (u.rx.rn ≡ s.rx.rn) × (u.rx.output ≡ s.rx.output))
        → (t ≡ s) ⊎ (IsStuck t × (t.rx.rn ≡ s.rx.rn) × (t.rx.output ≡ s.rx.output))
    go (inl e) = inr (IsFull-IsStuck file full (subst (λ v. Step file v t) e st))
    go (inr (stuck, n, o)) =
        let (stuck', n', o') = Step-IsStuck st stuck in inr (stuck', n' ∙ n, o' ∙ o)

-- From a state in which all data has been sent, the window is full of sealed frames with their own
-- sequence numbers, none of which wraps, the receiver still waits for the oldest of them, both
-- channels are empty and the sender is about to send the end-of-transmission frame, the transfer never ends: in every state that can
-- follow, whatever the channels do, the receiver has accepted and written nothing more and has not
-- stopped, and the sender has not returned.
pub never_ends :
    {file : List ℕ} {s t : System}
    → IsFull file s
    → Reach file s t
    → (t.rx.rn ≡ s.rx.rn)
      × (t.rx.output ≡ s.rx.output)
      × (t.rx.stopped ≡ false)
      × (t.tx.phase ≢ finished)
never_ends {file} {s} {t} full r = go (Reach-either full r)
  where
    go :
        (t ≡ s) ⊎ (IsStuck t × (t.rx.rn ≡ s.rx.rn) × (t.rx.output ≡ s.rx.output))
        → (t.rx.rn ≡ s.rx.rn)
          × (t.rx.output ≡ s.rx.output)
          × (t.rx.stopped ≡ false)
          × (t.tx.phase ≢ finished)
    go (inl e) = (
      ap (λ w. w.rx.rn) e,
      ap (λ w. w.rx.output) e,
      ap (λ w. w.rx.stopped) e ∙ full.runs,
      λ q. sending_ne_finished (sym full.sends_eot ∙ sym (ap (λ w. w.tx.phase) e) ∙ q),
    )
    go (inr (stuck, n, o)) =
        (n, o, stuck.runs, λ q. draining_ne_finished (sym stuck.tx_stuck.drains ∙ q))
