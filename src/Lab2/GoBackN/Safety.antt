-- ===== src/Lab2/GoBackN/Safety.antt =====
-- lab2: a Go-Back-N transfer over channels that lose frames and flip bits.
use network_lab.Prelude.{
  take-all, ℕ, ◌+◌, ◌*◌, ◌≤◌, ◌≡◌, refl, ◌∙◌, ◌⊎◌, inl, inr, true, List, ◌∷◌, length, take, arith,
  All, All-append, All-map,
}
use mathlib.Core.Bool.{false≢true}
use mathlib.Core.Path.{subst}
use native.Mathlib.Decide.{dec_lt}
use network_lab.Lab1.Checksum.Sum.{IsBytes}
use network_lab.Lab1.Frame.{Frame}
use network_lab.Lab2.Channel.Flight.{Flight, Outgoing, Flight-map, Carries-Flight}
use network_lab.Lab2.Arq.Genuine.{Genuine, AckUpTo}
use network_lab.Lab2.GoBackN.Sender
use network_lab.Lab2.GoBackN.Sender.{finished}
use network_lab.Lab2.GoBackN.Receiver
use network_lab.Lab2.GoBackN.System.{
  System, sends, start, Step, sender, receiver, Reach, here, next,
}
use network_lab.Lab2.Arq.Reports.{Reports-Told}
use network_lab.Lab2.GoBackN.SenderInv.{SenderInv, Progress, Told}
use network_lab.Lab2.GoBackN.Round.{round-SenderInv}
use network_lab.Lab2.GoBackN.ReceiverInv.{ReceiverInv, on_frame-ReceiverInv}

record IsSafe (file : List ℕ) (s : System) : Type 0 where
  tx_safe : SenderInv file s.rx.rn s.tx
  rx_safe : ReceiverInv file s.rx
  forward_safe : All (Flight (Genuine file)) s.forward
  backward_safe : All (Flight (AckUpTo s.rx.rn)) s.backward

-- More frames received: what was known of the other side still holds.
SenderInv-later :
    {file : List ℕ} {m n : ℕ} {t : Sender.Sender} → m ≤ n → SenderInv file m t → SenderInv file n t
SenderInv-later {file} {m} {n} {t} h v = record {
  behind = omega (arith, v.behind);
  stored = v.stored;
  progress = later t.phase v.progress;
}
  where
    later : (p : Sender.Phase) → Progress file m p t.sn t.offset → Progress file n p t.sn t.offset
    later Sender.sending q = q
    later Sender.draining q = q
    later finished q = omega arith

AckUpTo-later : {m n : ℕ} → m ≤ n → (f : Frame) → AckUpTo m f → AckUpTo n f
AckUpTo-later h f (a, le, e) = (a, omega arith, e)

module _ (file : List ℕ) (bytes : IsBytes file) (small : length file ≤ 44 * 65534) where
  Step-IsSafe : {s t : System} → Step file s t → IsSafe file s → IsSafe file t
  Step-IsSafe {s} (sender {sel} {rest} {ws} reports carries) v = record {
    tx_safe = done.0;
    rx_safe = v.rx_safe;
    forward_safe =
        All-append (Flight (Genuine file)) s.forward ws v.forward_safe
          (Carries-Flight (Genuine file) carries done.1);
    backward_safe = told.1;
  }
    where
      told : Told file s.rx.rn sel × All (Flight (AckUpTo s.rx.rn)) rest
      told =
          Reports-Told (AckUpTo s.rx.rn) (length file + 44 ≤ 44 * s.rx.rn) reports v.rx_safe.whole
            v.backward_safe

      done :
          SenderInv file s.rx.rn (Sender.round file s.tx sel).0
          × All (Outgoing (Genuine file)) (sends (Sender.round file s.tx sel).1)
      done =
          round-SenderInv file bytes small s.rx.rn (omega (arith, v.rx_safe.in_range)) s.tx sel
            v.tx_safe told.0
  Step-IsSafe {s} (receiver {b} {rest} {ws} on e carries) v = record {
    tx_safe = SenderInv-later done.1 v.tx_safe;
    rx_safe = done.0;
    forward_safe = wire.1;
    backward_safe =
        All-append (Flight (AckUpTo rn')) s.backward ws
          (All-map (Flight (AckUpTo s.rx.rn)) (Flight (AckUpTo rn')) s.backward
            (λ x. Flight-map (AckUpTo s.rx.rn) (AckUpTo rn') (AckUpTo-later done.1))
            v.backward_safe)
          (Carries-Flight (AckUpTo rn') carries done.2);
  }
    where
      rn' : ℕ
      rn' = (Receiver.on_frame s.rx b).0.rn

      wire : All (Flight (Genuine file)) (b ∷ rest)
      wire = subst (All (Flight (Genuine file))) e v.forward_safe

      done :
          ReceiverInv file (Receiver.on_frame s.rx b).0
          × (s.rx.rn ≤ (Receiver.on_frame s.rx b).0.rn)
          × All (Outgoing (AckUpTo (Receiver.on_frame s.rx b).0.rn)) (Receiver.on_frame s.rx b).1
      done = on_frame-ReceiverInv file small s.rx on v.rx_safe wire.0

  Reach-IsSafe : {s t : System} → IsSafe file s → Reach file s t → IsSafe file t
  Reach-IsSafe v here = v
  Reach-IsSafe v (next r st) = Step-IsSafe st (Reach-IsSafe v r)

  start-IsSafe : (window_size : ℕ) → IsSafe file (start window_size)
  unfolding Sender.start
  start-IsSafe w = record {
    tx_safe = record { behind = omega arith; stored = λ i h. elim h [ ]; progress = begun };
    rx_safe = record {
      in_range = omega arith;
      written = refl;
      going = λ _. omega arith;
      whole = λ e. absurd (false≢true e);
    };
    forward_safe = tt;
    backward_safe = tt;
  }
    where
      begun : Progress file 0 Sender.sending 0 0
      begun = elim (dec_lt 0 (length file)) [
        | yes h ↦ inl (refl, h)
        | no h ↦ inr (omega arith, omega arith, omega arith)
      ]

  module _ (window_size : ℕ) (at_least : 1 ≤ window_size) (at_most : window_size ≤ 8) {s : System}
      (r : Reach file (start window_size) s) where
    -- In every run of a Go-Back-N transfer of a file of bytes, at most 65534 full frames long, with a
    -- window size from 1 to 8 and over channels that lose frames and flip one bit in some of them,
    -- what the receiver has written is the beginning of the file: one frame's worth of 44 bytes for
    -- each frame that it has accepted.
    pub output-take : s.rx.output ≡ take (44 * s.rx.rn) file
    output-take = (Reach-IsSafe (start-IsSafe window_size) r).rx_safe.written

    -- In every run of a Go-Back-N transfer of a file of bytes, at most 65534 full frames long, with a
    -- window size from 1 to 8 and over channels that lose frames and flip one bit in some of them:
    -- when the receiver has stopped, or the sender has returned, the receiver has written exactly
    -- the file.
    pub output-file : (s.rx.stopped ≡ true) ⊎ (s.tx.phase ≡ finished) → s.rx.output ≡ file
    output-file over = output-take ∙ take-all (44 * s.rx.rn) file (omega (arith, whole over))
      where
        v : IsSafe file s
        v = Reach-IsSafe (start-IsSafe window_size) r

        whole : (s.rx.stopped ≡ true) ⊎ (s.tx.phase ≡ finished) → length file + 44 ≤ 44 * s.rx.rn
        whole (inl e) = v.rx_safe.whole e
        whole (inr e) = rw e at v.tx_safe.progress
