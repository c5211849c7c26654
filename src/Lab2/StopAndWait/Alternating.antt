-- ===== src/Lab2/StopAndWait/Alternating.antt =====
-- lab2/arq, Stop-and-Wait: the sender, the receiver and the two channels, seen as the alternating-bit
-- protocol.
use network_lab.Prelude.{
  ℕ, ◌+◌, ◌-◌, ◌*◌, ◌%◌, ◌≤◌, ◌<◌, ◌≡◌, ◌≢◌, sym, ap, ◌∙◌, ◌⊎◌, inl, inr, true, false, List, ◌∷◌,
  ◌++◌, length, take, arith, Bool-cases, All, All-append, All-map, AllThen, first, second,
  AllThen-append, AllThen-all,
}
use network_lab.Lab1.Frame.{Frame, of_bytes}
use network_lab.Lab1.Frame.Seal.{fcs_matches}
use network_lab.Lab2.Arq.{Call}
use network_lab.Lab2.Arq.Calls.{sends}
use network_lab.Lab2.Arq.Payload.{chunk_frame-seq}
use network_lab.Lab2.Channel.{Carries}
use network_lab.Lab2.Channel.Flight.{Flight, Flight-map, Flight-of_bytes, Carries-Flight}
use network_lab.Lab2.StopAndWait.Sender.{Sender, Phase}
use network_lab.Lab2.StopAndWait.Receiver.{Receiver, on_frame}
use network_lab.Lab2.StopAndWait.Replies.{
  Ack, ThisFrame, Unmoved, Delivered, on_frame-other, on_frame-expected,
}
use network_lab.Lab2.StopAndWait.SenderInv.{HasBegun, IsGoing, SenderInv, Keeps, Passes}

-- A frame with the number of the frame before `a`.
abbrev pub OldFrame : ℕ → Frame → Type 0
OldFrame a f = f.header.frame_seq ≡ (a + 1) % 2

-- The receiver waits for frame `a`.
pub record IsAwaited (file : List ℕ) (a : ℕ) (phase : Phase) (rx : Receiver)
    (on_way replies : List (List ℕ)) : Type 0 where
  pub rn : rx.rn ≡ a % 2
  pub written : rx.output ≡ take (44 * a) file
  pub runs : rx.stopped ≡ false
  pub going : IsGoing phase
  pub ahead : HasBegun phase ⊎ All (Flight (OldFrame a)) on_way
  pub frames_safe : AllThen (Flight (OldFrame a)) (Flight (ThisFrame file a)) on_way
  pub replies_safe : All (Flight (Ack ((a + 1) % 2))) replies

-- The receiver has frame `a`, and the sender does not know it.
pub record IsTaken (file : List ℕ) (a : ℕ) (phase : Phase) (rx : Receiver)
    (on_way replies : List (List ℕ)) : Type 0 where
  pub rn : rx.rn ≡ (a + 1) % 2
  pub written : rx.output ≡ take (44 * a + 44) file
  pub stops_last : rx.stopped ≡ true → length file ≤ 44 * a
  pub goes_on : rx.stopped ≡ false → 44 * a < length file
  pub begun : HasBegun phase
  pub frames_safe : All (Flight (ThisFrame file a)) on_way
  pub replies_safe : AllThen (Flight (Ack ((a + 1) % 2))) (Flight (Ack (a % 2))) replies

abbrev pub Linked : List ℕ → ℕ → Phase → Receiver → List (List ℕ) → List (List ℕ) → Type 0
Linked file a phase rx forward backward =
    IsAwaited file a phase rx forward backward ⊎ IsTaken file a phase rx forward backward

module _ (file : List ℕ) (a : ℕ) (phase : Phase) (r : Receiver) (b : List ℕ)
    (rest backward ws : List (List ℕ)) (carries : Carries (on_frame r b).1 ws) where
  -- The receiver has not moved: whatever was linked still is.
  Unmoved-IsAwaited :
      IsAwaited file a phase r (b ∷ rest) backward
      → AllThen (Flight (OldFrame a)) (Flight (ThisFrame file a)) rest
      → Unmoved r (on_frame r b)
      → IsAwaited file a phase (on_frame r b).0 rest (backward ++ ws)
  Unmoved-IsAwaited v left (rn, out, on, replies) = record {
    rn = rn ∙ v.rn;
    written = out ∙ v.written;
    runs = on ∙ v.runs;
    going = v.going;
    ahead = elim v.ahead [ inl h ↦ inl h | inr o ↦ inr o.1 ];
    frames_safe = left;
    replies_safe = All-append (Flight (Ack ((a + 1) % 2))) backward ws v.replies_safe (
        Carries-Flight (Ack ((a + 1) % 2)) carries (
          let same : (r.rn + 2 - 1) % 2 ≡ (a + 1) % 2 = omega (arith, v.rn) in rw same at replies));
  }

  Unmoved-IsTaken :
      IsTaken file a phase r (b ∷ rest) backward
      → Unmoved r (on_frame r b)
      → IsTaken file a phase (on_frame r b).0 rest (backward ++ ws)
  Unmoved-IsTaken v (rn, out, on, replies) = record {
    rn = rn ∙ v.rn;
    written = out ∙ v.written;
    stops_last = λ e. v.stops_last (sym on ∙ e);
    goes_on = λ e. v.goes_on (sym on ∙ e);
    begun = v.begun;
    frames_safe = v.frames_safe.1;
    replies_safe = AllThen-append backward ws v.replies_safe (
        Carries-Flight (Ack (a % 2)) carries
          (let same : (r.rn + 2 - 1) % 2 ≡ a % 2 = omega (arith, v.rn) in rw same at replies));
  }

  Delivered-IsTaken :
      IsAwaited file a phase r (b ∷ rest) backward
      → All (Flight (ThisFrame file a)) (b ∷ rest)
      → fcs_matches b ≡ true
      → Delivered file a r (on_frame r b)
      → IsTaken file a phase (on_frame r b).0 rest (backward ++ ws)
  Delivered-IsTaken v these ok d = record {
    rn = d.rn_moves;
    written = d.output_grows;
    stops_last = d.stops_last;
    goes_on = d.goes_on;
    begun = elim v.ahead [
      | inl h ↦ h
      | inr old ↦
          let this = Flight-of_bytes (ThisFrame file a) these.0 ok in
          let one = chunk_frame-seq file a (a % 2) this (omega arith) in
          let other : (of_bytes b).header.frame_seq ≡ (a + 1) % 2 =
            Flight-of_bytes (OldFrame a) old.0 ok in
          absurd (omega (arith, one, other))
    ];
    frames_safe = these.1;
    replies_safe =
        AllThen-append backward ws (AllThen-all backward v.replies_safe)
          (Carries-Flight (Ack (a % 2)) carries d.acked);
  }

  awaited-Linked :
      IsAwaited file a phase r (b ∷ rest) backward
      → AllThen (Flight (OldFrame a)) (Flight (ThisFrame file a)) (b ∷ rest)
      → Linked file a phase (on_frame r b).0 rest (backward ++ ws)
  awaited-Linked v (first old left) = inl (
      Unmoved-IsAwaited v left (
        on_frame-other r (
          Flight-map (OldFrame a) (λ f. f.header.frame_seq ≢ r.rn)
            (λ f is same. omega (arith, is, same, v.rn)) old)))
  awaited-Linked v (second these) = elim (on_frame-expected file a r v.rn v.written these.0) [
    | inl u ↦ inl (Unmoved-IsAwaited v (second these.1) u)
    | inr (ok, d) ↦ inr (Delivered-IsTaken v these ok d)
  ]

  -- The receiver takes a frame from the socket.
  pub on_frame-Linked :
      Linked file a phase r (b ∷ rest) backward
      → Linked file a phase (on_frame r b).0 rest (backward ++ ws)
  on_frame-Linked (inl v) = awaited-Linked v v.frames_safe
  on_frame-Linked (inr v) = inr (
      Unmoved-IsTaken v (
        on_frame-other r (
          Flight-map (ThisFrame file a) (λ f. f.header.frame_seq ≢ r.rn)
            (λ f is same.
              omega (arith, chunk_frame-seq file a (a % 2) is (omega arith), same, v.rn))
            v.frames_safe.0)))

-- The sender and the link, for some frame.
pub data IsSafe (file : List ℕ) (tx : Sender) (rx : Receiver) (forward backward : List (List ℕ))
    : Type 0 where
  at_frame :
      (a : ℕ)
      → SenderInv file a tx
      → Linked file a tx.phase rx forward backward
      → IsSafe file tx rx forward backward

module _ (file : List ℕ) (a : ℕ) (rx : Receiver) (forward backward ws : List (List ℕ)) where
  -- The sender sends the frame, again or for the first time.
  pub Keeps-IsSafe :
      {phase : Phase} (t : Sender × List Call)
      → Carries (sends t.1) ws
      → Linked file a phase rx forward backward
      → Keeps file a t
      → IsSafe file t.0 rx (forward ++ ws) backward
  Keeps-IsSafe t carries (inl v) k = at_frame a k.inv (
      inl (record {
        rn = v.rn;
        written = v.written;
        runs = v.runs;
        going = k.going;
        ahead = inl k.begun;
        frames_safe =
            AllThen-append forward ws v.frames_safe
              (Carries-Flight (ThisFrame file a) carries k.this_out);
        replies_safe = v.replies_safe;
      }))
  Keeps-IsSafe t carries (inr v) k = at_frame a k.inv (
      inr (record {
        rn = v.rn;
        written = v.written;
        stops_last = v.stops_last;
        goes_on = v.goes_on;
        begun = k.begun;
        frames_safe =
            All-append (Flight (ThisFrame file a)) forward ws v.frames_safe
              (Carries-Flight (ThisFrame file a) carries k.this_out);
        replies_safe = v.replies_safe;
      }))

module _ (file : List ℕ) (a : ℕ) (rx : Receiver) (forward backward : List (List ℕ)) where
  this_old : All (Flight (ThisFrame file a)) forward → All (Flight (OldFrame (a + 1))) forward
  this_old = All-map (Flight (ThisFrame file a)) (Flight (OldFrame (a + 1))) forward (λ b.
      Flight-map (ThisFrame file a) (OldFrame (a + 1))
        (λ f is. omega (arith, chunk_frame-seq file a (a % 2) is (omega arith))))

  acks_old : All (Flight (Ack (a % 2))) backward → All (Flight (Ack ((a + 1 + 1) % 2))) backward
  acks_old = let same : a % 2 ≡ (a + 1 + 1) % 2 = omega arith in rw same (λ h. h)

  -- The acknowledgement of the frame has been read, or the end of the stream.
  pub Passes-IsSafe :
      {phase : Phase} (t : Sender × List Call)
      → IsTaken file a phase rx forward backward
      → All (Flight (Ack (a % 2))) backward
      → Passes file a t
      → IsSafe file t.0 rx forward backward
  Passes-IsSafe t v acks p = elim p.inv [
    | inl (more, inv, ph) ↦ at_frame (a + 1) inv (
        inl (record {
          rn = v.rn;
          written = v.written ∙ ap (λ k. take k file) (omega arith);
          runs = elim (Bool-cases rx.stopped) [
            | inl e ↦ absurd (omega (arith, v.stops_last e))
            | inr e ↦ e
          ];
          going = rw ph tt;
          ahead = inr (this_old v.frames_safe);
          frames_safe = AllThen-all forward (this_old v.frames_safe);
          replies_safe = acks_old acks;
        }))
    | inr (no_more, inv, ph) ↦ at_frame a inv (
        inr (record {
          rn = v.rn;
          written = v.written;
          stops_last = v.stops_last;
          goes_on = v.goes_on;
          begun = rw ph tt;
          frames_safe = v.frames_safe;
          replies_safe = second acks;
        }))
  ]
