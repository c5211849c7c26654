-- ===== src/Lab2/StopAndWait/Safety.antt =====
-- lab2: a Stop-and-Wait transfer over channels that lose frames and flip bits.
use network_lab.Prelude.{
  take-all, ℕ, ◌+◌, ◌*◌, ◌%◌, ◌≤◌, ◌≡◌, refl, sym, ap, ◌∙◌, ◌⊎◌, inl, inr, true, List, [], ◌∷◌,
  ◌++◌, length, take, arith, All, AllThen, first, second,
}
use mathlib.Core.Bool.{false≢true}
use mathlib.Core.List.{append-nil}
use mathlib.Core.Path.{subst}
use native.Mathlib.Decide.{dec_lt}
use network_lab.Lab1.Checksum.Sum.{IsBytes}
use network_lab.Lab1.Frame.{zero_frame}
use network_lab.Lab2.Arq.{Call}
use network_lab.Lab2.Arq.Calls.{sends}
use network_lab.Lab2.Channel.{Carries, quiet}
use network_lab.Lab2.Channel.Flight.{Flight}
use network_lab.Lab2.StopAndWait.Sender
use network_lab.Lab2.StopAndWait.Sender.{
  Sender, Phase, sending, finished, WaitResult, wait_for_ack, sw_wait_for_ack,
}
use network_lab.Lab2.StopAndWait.Receiver.{Receiver}
use network_lab.Lab2.StopAndWait.System.{
  System, start, Hears, fails, expires, reads, closes, Step, sends_new, waits, receiver, Reach,
  here, next,
}
use network_lab.Lab2.StopAndWait.Replies.{Ack}
use network_lab.Lab2.StopAndWait.SenderInv.{
  Place, Reached, SenderInv, Passes, Waits, main_round-Keeps, retransmit-Keeps, acked-Passes,
}
use network_lab.Lab2.StopAndWait.SenderReplies.{on_reply-Keeps, on_reply-cases}
use network_lab.Lab2.StopAndWait.Alternating.{
  IsAwaited, IsTaken, Linked, on_frame-Linked, IsSafe, at_frame, Keeps-IsSafe, Passes-IsSafe,
}

nothing_carried : {ws : List (List ℕ)} → Carries [] ws → ws ≡ []
nothing_carried quiet = refl

module _ (file : List ℕ) (a : ℕ) (phase : Phase) (rx : Receiver) (forward : List (List ℕ))
    (b : List ℕ) (rest : List (List ℕ)) where
  IsAwaited-rest :
      IsAwaited file a phase rx forward (b ∷ rest) → IsAwaited file a phase rx forward rest
  IsAwaited-rest v = record {
    rn = v.rn;
    written = v.written;
    runs = v.runs;
    going = v.going;
    ahead = v.ahead;
    frames_safe = v.frames_safe;
    replies_safe = v.replies_safe.1;
  }

  IsTaken-rest :
      IsTaken file a phase rx forward (b ∷ rest)
      → AllThen (Flight (Ack ((a + 1) % 2))) (Flight (Ack (a % 2))) rest
      → IsTaken file a phase rx forward rest
  IsTaken-rest v left = record {
    rn = v.rn;
    written = v.written;
    stops_last = v.stops_last;
    goes_on = v.goes_on;
    begun = v.begun;
    frames_safe = v.frames_safe;
    replies_safe = left;
  }

module _ (file : List ℕ) (bytes : IsBytes file) (a : ℕ) (tx : Sender) (inv : SenderInv file a tx)
    (wait : Waits tx) (rx : Receiver) (forward : List (List ℕ)) where
  Passes-append :
      {backward ws : List (List ℕ)} (t : Sender × List Call)
      → Carries (sends t.1) ws
      → IsTaken file a tx.phase rx forward backward
      → All (Flight (Ack (a % 2))) backward
      → Passes file a t
      → IsSafe file t.0 rx (forward ++ ws) backward
  Passes-append {backward} {ws} t carries v acks p =
      let none : ws ≡ [] = nothing_carried (subst (λ bs. Carries bs ws) p.none_out carries) in
      subst (λ f. IsSafe file t.0 rx f backward)
        (sym (ap (λ w. forward ++ w) none ∙ append-nil forward))
        (Passes-IsSafe file a rx forward backward t v acks p)

  -- A reply has been read while the receiver had the frame.
  reads-IsSafe :
      (b : List ℕ) {rest ws : List (List ℕ)}
      → Carries (sends (Sender.on_reply file tx b).1) ws
      → IsTaken file a tx.phase rx forward (b ∷ rest)
      → AllThen (Flight (Ack ((a + 1) % 2))) (Flight (Ack (a % 2))) (b ∷ rest)
      → IsSafe file (Sender.on_reply file tx b).0 rx (forward ++ ws) rest
  reads-IsSafe b {rest} {ws} carries v (first old left) =
      Keeps-IsSafe file a rx forward rest ws (Sender.on_reply file tx b) carries
        (inr (IsTaken-rest file a tx.phase rx forward b rest v left))
        (on_reply-Keeps file bytes a tx inv wait old)
  reads-IsSafe b {rest} {ws} carries v (second acks) =
      let taken = IsTaken-rest file a tx.phase rx forward b rest v (second acks.1) in
      elim (on_reply-cases file bytes a tx b inv wait) [
        | inl k ↦
            Keeps-IsSafe file a rx forward rest ws (Sender.on_reply file tx b) carries (inr taken) k
        | inr p ↦ Passes-append (Sender.on_reply file tx b) carries taken acks.1 p
      ]

  waits-IsSafe :
      {backward rest ws : List (List ℕ)} {result : WaitResult}
      → Hears rx.stopped backward result rest
      → Carries (sends (sw_wait_for_ack file tx result).1) ws
      → Linked file a tx.phase rx forward backward
      → IsSafe file (sw_wait_for_ack file tx result).0 rx (forward ++ ws) rest
  unfolding sw_wait_for_ack wait_for_ack sends
  waits-IsSafe {backward} {ws} fails carries link =
      Keeps-IsSafe file a rx forward backward ws (record tx { phase = Sender.gave_up }, []) carries
        link
        (record {
          inv = record { number = inv.number; reached = inv.reached; place = tt };
          begun = tt;
          going = tt;
          this_out = tt;
        })
  waits-IsSafe {backward} {ws} expires carries link =
      Keeps-IsSafe file a rx forward backward ws (Sender.retransmit tx) carries link
        (retransmit-Keeps file bytes a tx inv wait)
  waits-IsSafe {ws} (reads b rest) carries (inl v) =
      Keeps-IsSafe file a rx forward rest ws (Sender.on_reply file tx b) carries
        (inl (IsAwaited-rest file a tx.phase rx forward b rest v))
        (on_reply-Keeps file bytes a tx inv wait v.replies_safe.0)
  waits-IsSafe (reads b rest) carries (inr v) = reads-IsSafe b carries v v.replies_safe
  waits-IsSafe (closes e) carries (inl v) = absurd (false≢true (sym v.runs ∙ e))
  waits-IsSafe (closes e) carries (inr v) =
      Passes-append (Sender.acked tx.phase file tx, []) carries v tt
        (acked-Passes file bytes a tx [] inv wait refl)

module _ (file : List ℕ) (bytes : IsBytes file) where
  Step-IsSafe :
      {s t : System}
      → Step file s t
      → IsSafe file s.tx s.rx s.forward s.backward
      → IsSafe file t.tx t.rx t.forward t.backward
  Step-IsSafe {s} (sends_new {ws} e carries) (at_frame a inv link) =
      Keeps-IsSafe file a s.rx s.forward s.backward ws (Sender.main_round file s.tx) carries link
        (main_round-Keeps file bytes a s.tx inv e)
  Step-IsSafe {s} (waits wait hears carries) (at_frame a inv link) =
      waits-IsSafe file bytes a s.tx inv wait s.rx s.forward hears carries link
  Step-IsSafe {s} (receiver {b} {rest} {ws} on e carries) (at_frame a inv link) = at_frame a inv (
      on_frame-Linked file a s.tx.phase s.rx b rest s.backward ws carries
        (subst (λ f. Linked file a s.tx.phase s.rx f s.backward) e link))

  Reach-IsSafe :
      {s t : System}
      → Reach file s t
      → IsSafe file s.tx s.rx s.forward s.backward
      → IsSafe file t.tx t.rx t.forward t.backward
  Reach-IsSafe here v = v
  Reach-IsSafe (next r st) v = Step-IsSafe st (Reach-IsSafe r v)

  start-IsSafe : IsSafe file start.tx start.rx [] []
  start-IsSafe =
      at_frame 0 (record { number = refl; reached = inl (omega arith); place = begun })
        (inl (record {
          rn = refl;
          written = refl;
          runs = refl;
          going = tt;
          ahead = inr tt;
          frames_safe = second tt;
          replies_safe = tt;
        }))
    where
      begun : Place file 0 sending 0 zero_frame
      begun = elim (dec_lt 0 (length file)) [
        | yes h ↦ inl (refl, h)
        | no h ↦ inr (omega arith, omega arith, omega arith)
      ]

take_at_end :
    (file : List ℕ) {m n : ℕ} → length file ≤ m → length file ≤ n → take m file ≡ take n file
take_at_end file {m} {n} h k = take-all m file h ∙ sym (take-all n file k)

take-Reached :
    (file : List ℕ) (a offset : ℕ) → Reached file a offset → take (44 * a) file ≡ take offset file
take-Reached file a offset (inl e) = ap (λ k. take k file) (sym e)
take-Reached file a offset (inr (e, le)) = take_at_end file (omega arith) (omega arith)

take-Reached_more :
    (file : List ℕ) (a offset : ℕ)
    → Reached file a offset
    → take (44 * a + 44) file ≡ take (offset + 44) file
take-Reached_more file a offset (inl e) = ap (λ k. take (k + 44) file) (sym e)
take-Reached_more file a offset (inr (e, le)) = take_at_end file (omega arith) (omega arith)

module _ (file : List ℕ) (bytes : IsBytes file) {s : System} (r : Reach file start s) where
  -- In every run of a Stop-and-Wait transfer of a file of bytes of any length, over channels that
  -- lose frames and flip one bit in some of them, the receiver has written what the sender counts as
  -- sent, the file up to the sender's `offset`, or that and the frame that the sender waits for, and
  -- nothing else.
  pub written-take :
      (s.rx.output ≡ take s.tx.offset file) ⊎ (s.rx.output ≡ take (s.tx.offset + 44) file)
  written-take = at (Reach-IsSafe file bytes r (start-IsSafe file bytes))
    where
      at :
          IsSafe file s.tx s.rx s.forward s.backward
          → (s.rx.output ≡ take s.tx.offset file) ⊎ (s.rx.output ≡ take (s.tx.offset + 44) file)
      at (at_frame a inv (inl v)) = inl (v.written ∙ take-Reached file a s.tx.offset inv.reached)
      at (at_frame a inv (inr v)) =
          inr (v.written ∙ take-Reached_more file a s.tx.offset inv.reached)

  -- In every run of a Stop-and-Wait transfer of a file of bytes of any length, over channels that
  -- lose frames and flip one bit in some of them: when the receiver has stopped, or the sender has
  -- returned 0, the receiver has written exactly the file.
  pub written-file : (s.rx.stopped ≡ true) ⊎ (s.tx.phase ≡ finished) → s.rx.output ≡ file
  written-file over = at (Reach-IsSafe file bytes r (start-IsSafe file bytes)) over
    where
      at :
          IsSafe file s.tx s.rx s.forward s.backward
          → (s.rx.stopped ≡ true) ⊎ (s.tx.phase ≡ finished)
          → s.rx.output ≡ file
      at (at_frame a inv (inl v)) (inl e) = absurd (false≢true (sym v.runs ∙ e))
      at (at_frame a inv (inl v)) (inr e) = absurd (rw e at v.going)
      at (at_frame a inv (inr v)) (inl e) =
          v.written ∙ take-all (44 * a + 44) file (omega (arith, v.stops_last e))
      at (at_frame a inv (inr v)) (inr e) =
          let whole : length file ≤ 44 * a = rw e at inv.place in
          v.written ∙ take-all (44 * a + 44) file (omega arith)
