-- ===== src/Lab2/GoBackN/Stuck.antt =====
-- lab2/arq, Go-Back-N: a transfer that can no longer end, because the end-of-transmission frame has
-- taken the slot of a frame that the receiver does not have.
use network_lab.Prelude.{
  ℕ, lt→ltb, zero, suc, ◌+◌, ◌-◌, ◌%◌, ◌^◌, ◌≤◌, ◌<◌, ◌≡◌, ◌≢◌, refl, sym, ◌∙◌, inl, inr, Bool,
  false, List, [], ◌∷◌, arith, All, All-append, All-split, Bool-cases,
}
use mathlib.Core.Bool.{false≢true}
use mathlib.Core.Path.{subst}
use network_lab.Lab1.Frame.{Frame, of_bytes}
use network_lab.Lab1.Frame.Seal.{fcs_matches}
use network_lab.Lab2.Arq.{
  Select, failed, timeout, arrived, timer_start_window, frame_ack, reply_frame,
}
use network_lab.Lab2.Channel.Flight.{IsSealed, Flight, Outgoing, Flight-of_bytes, Carries-Flight}
use network_lab.Lab2.Arq.Genuine.{AckUpTo, reply_frame-IsSealed, ack-le}
use network_lab.Lab2.GoBackN.Sender.{
  Sender, Phase, draining, acknowledges, on_ack, on_acks, resend, resend_window, gbn_wait_step,
  wait, drain_round, round_in, round,
}
use network_lab.Lab2.GoBackN.Receiver.{Receiver, in_order, accept, corrupted, on_frame}
use network_lab.Lab2.GoBackN.System.{
  System, sends, Reports, fails, expires, reads, closes, Step, sender, receiver, Reach, here, next,
}
use network_lab.Lab2.GoBackN.ReceiverInv.{in_order-seq}
use network_lab.Lab2.GoBackN.Window.{acknowledges_lem, sends-append}

-- A frame that is not number `n`.
abbrev pub Stray : ℕ → Frame → Type 0
Stray n f = f.header.frame_seq ≢ n

-- The sender drains a window whose slots do not hold the frame that the receiver waits for.
pub record SenderStuck (n : ℕ) (s : Sender) : Type 0 where
  pub drains : s.phase ≡ draining
  pub waits : s.sf ≡ n
  pub open_window : s.sf < s.sn
  pub stray :
      (i : ℕ)
      → s.sf ≤ i
      → i < s.sn
      → Stray n (s.frame_store (i % s.sw)) × IsSealed (s.frame_store (i % s.sw))

pub record IsStuck (s : System) : Type 0 where
  pub tx_stuck : SenderStuck s.rx.rn s.tx
  pub runs : s.rx.stopped ≡ false
  pub fits : s.rx.rn < 2 ^ 16
  pub forward_stray : All (Flight (Stray s.rx.rn)) s.forward
  pub backward_old : All (Flight (AckUpTo s.rx.rn)) s.backward

-- Nothing that the sender is told is new.
abbrev pub OldNews : ℕ → Select → Type 0
OldNews n failed = Unit {0}
OldNews n timeout = Unit {0}
OldNews n (arrived frames closed) = All (Flight (AckUpTo n)) frames × (closed ≡ false)

module _ (n : ℕ) (small : n < 2 ^ 16) where
  on_ack_old : (s : Sender) (b : List ℕ) → s.sf ≡ n → Flight (AckUpTo n) b → on_ack s b ≡ (s, [])
  unfolding on_ack
  on_ack_old s b e fl = elim (Bool-cases (acknowledges s b)) [
    | inr no_ack ↦ rw no_ack
    | inl ack ↦
        let (ok, above, _) = acknowledges_lem s b ack in
        absurd (omega (arith, ack-le n small fl ok))
  ]

  on_acks_old :
      (s : Sender) (bs : List (List ℕ))
      → s.sf ≡ n
      → All (Flight (AckUpTo n)) bs
      → on_acks s bs ≡ (s, [])
  unfolding on_acks
  on_acks_old s [] e fl = refl
  on_acks_old s (b ∷ bs) e fl = rw (on_ack_old s b e fl.0, on_acks_old s bs e fl.1)

  resend-Stray :
      (s : Sender) (left i : ℕ)
      → SenderStuck n s
      → s.sf ≤ i
      → left ≤ s.sn - i
      → All (Outgoing (Stray n)) (sends (resend s.frame_store s.sw left i))
  unfolding resend sends
  resend-Stray s zero i v lo h = tt
  resend-Stray s (suc left) i v lo h =
      let (strays, sealed) = v.stray i lo (omega arith) in
      (
        (s.frame_store (i % s.sw), strays, sealed, refl),
        resend-Stray s left (i + 1) v (omega arith) (omega arith),
      )

  wait-SenderStuck :
      (s : Sender) (sel : Select)
      → SenderStuck n s
      → OldNews n sel
      → SenderStuck n (wait s sel).0 × All (Outgoing (Stray n)) (sends (wait s sel).1)
  unfolding wait gbn_wait_step resend_window
  wait-SenderStuck s failed v t = (v, unfold sends in tt)
  wait-SenderStuck s timeout v t = (
    record { drains = v.drains; waits = v.waits; open_window = v.open_window; stray = v.stray },
    rw (sends-append (resend s.frame_store s.sw (s.sn - s.sf) s.sf) (timer_start_window ∷ [])) (
        All-append (Outgoing (Stray n)) _ _
          (resend-Stray s (s.sn - s.sf) s.sf v (omega arith) (omega arith)) (unfold sends in tt)),
  )
  wait-SenderStuck s (arrived frames closed) v t =
      rw (t.1, on_acks_old s frames v.waits t.0) (v, unfold sends in tt)

  -- A round of a stuck sender leaves it stuck and sends no frame `n`.
  round-SenderStuck :
      (file : List ℕ) (s : Sender) (sel : Select)
      → SenderStuck n s
      → OldNews n sel
      → SenderStuck n (round file s sel).0 × All (Outgoing (Stray n)) (sends (round file s sel).1)
  unfolding round round_in drain_round
  round-SenderStuck file s sel v t = subst Ends (sym v.drains) drained
    where
      Ends : Phase → Type 0
      Ends p =
          SenderStuck n (round_in p file s sel).0
          × All (Outgoing (Stray n)) (sends (round_in p file s sel).1)

      drained : Ends draining
      drained = rw (lt→ltb s.sf s.sn v.open_window) (wait-SenderStuck s sel v t)

pub Reports-OldNews :
    (n : ℕ) {stopped : Bool} {bs rest : List (List ℕ)} {sel : Select}
    → Reports stopped bs sel rest
    → stopped ≡ false
    → All (Flight (AckUpTo n)) bs
    → OldNews n sel × All (Flight (AckUpTo n)) rest
Reports-OldNews n fails e fl = (tt, fl)
Reports-OldNews n expires e fl = (tt, fl)
Reports-OldNews n (reads bs rest) e fl =
    let (seen, left) = All-split (Flight (AckUpTo n)) bs rest fl in ((seen, refl), left)
Reports-OldNews n (closes bs e') e fl = absurd (false≢true (sym e ∙ e'))

-- A receiver drops every frame but the one that it waits for.
accept_other :
    (r : Receiver) {b : List ℕ}
    → Flight (Stray r.rn) b
    → ((accept r b).rn ≡ r.rn)
      × ((accept r b).output ≡ r.output)
      × ((accept r b).stopped ≡ r.stopped)
unfolding accept corrupted
accept_other r {b} fl = elim (Bool-cases (fcs_matches b)) [
  | inr bad ↦ rw bad (refl, refl, refl)
  | inl ok ↦ elim (Bool-cases (in_order r (of_bytes b))) [
    | inr other ↦ rw (ok, other) (refl, refl, refl)
    | inl next_one ↦
        absurd (Flight-of_bytes (Stray r.rn) fl ok (in_order-seq r (of_bytes b) next_one))
  ]
]

on_frame_other :
    (r : Receiver) {b : List ℕ}
    → Flight (Stray r.rn) b
    → ((on_frame r b).0.rn ≡ r.rn)
      × ((on_frame r b).0.output ≡ r.output)
      × ((on_frame r b).0.stopped ≡ r.stopped)
unfolding on_frame
on_frame_other r fl = accept_other r fl

on_frame-Outgoing :
    (r : Receiver) {b : List ℕ}
    → Flight (Stray r.rn) b
    → All (Outgoing (AckUpTo r.rn)) (on_frame r b).1
unfolding on_frame
on_frame-Outgoing r {b} fl =
    let n = (accept r b).rn in
    (
      (
        reply_frame frame_ack n,
        (n, omega (arith, accept_other r fl), refl),
        reply_frame-IsSealed n,
        refl,
      ),
      tt,
    )

-- A stuck system stays stuck, and its receiver writes nothing more.
pub Step-IsStuck :
    {file : List ℕ} {s t : System}
    → Step file s t
    → IsStuck s
    → IsStuck t × (t.rx.rn ≡ s.rx.rn) × (t.rx.output ≡ s.rx.output)
Step-IsStuck {file} {s} (sender {sel} {rest} {ws} reports carries) v =
    let told = Reports-OldNews s.rx.rn reports v.runs v.backward_old in
    let done = round-SenderStuck s.rx.rn v.fits file s.tx sel v.tx_stuck told.0 in
    (
      record {
        tx_stuck = done.0;
        runs = v.runs;
        fits = v.fits;
        forward_stray =
            All-append (Flight (Stray s.rx.rn)) s.forward ws v.forward_stray
              (Carries-Flight (Stray s.rx.rn) carries done.1);
        backward_old = told.1;
      },
      refl,
      refl,
    )
Step-IsStuck {file} {s} (receiver {b} {rest} {ws} on e carries) v = (
  record {
    tx_stuck = rw same v.tx_stuck;
    runs = (on_frame_other s.rx wire.0).2 ∙ v.runs;
    fits = rw same v.fits;
    forward_stray = rw same wire.1;
    backward_old = rw same (
        All-append (Flight (AckUpTo s.rx.rn)) s.backward ws v.backward_old
          (Carries-Flight (AckUpTo s.rx.rn) carries (on_frame-Outgoing s.rx wire.0)));
  },
  same,
  (on_frame_other s.rx wire.0).1,
)
  where
    wire : All (Flight (Stray s.rx.rn)) (b ∷ rest)
    wire = subst (All (Flight (Stray s.rx.rn))) e v.forward_stray

    same : (on_frame s.rx b).0.rn ≡ s.rx.rn
    same = (on_frame_other s.rx wire.0).0

pub Reach-IsStuck :
    {file : List ℕ} {s t : System}
    → Reach file s t
    → IsStuck s
    → IsStuck t × (t.rx.rn ≡ s.rx.rn) × (t.rx.output ≡ s.rx.output)
Reach-IsStuck here v = (v, refl, refl)
Reach-IsStuck (next r st) v =
    let (u, n, o) = Reach-IsStuck r v in let (t, n', o') = Step-IsStuck st u in (t, n' ∙ n, o' ∙ o)
