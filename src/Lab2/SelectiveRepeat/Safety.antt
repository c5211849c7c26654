-- ===== src/Lab2/SelectiveRepeat/Safety.antt =====
-- lab2: a Selective Repeat transfer over channels that lose frames and flip bits.
use network_lab.Prelude.{
  take-all, ℕ, zero, suc, ◌+◌, ◌*◌, ◌≤◌, ◌≡◌, refl, ◌∙◌, ◌⊎◌, inl, inr, true, List, ◌∷◌, length,
  take, arith, All, All-append, All-map,
}
use mathlib.Core.Bool.{false≢true}
use mathlib.Core.Path.{subst}
use native.Mathlib.Decide.{dec_lt}
use network_lab.Lab1.Checksum.Sum.{IsBytes}
use network_lab.Lab2.Arq.Genuine.{Genuine}
use network_lab.Lab2.Arq.Progress.{Progress}
use network_lab.Lab2.Arq.Reports.{Reports-Told}
use network_lab.Lab2.Arq.Window.{Phase, sending, draining, finished}
use network_lab.Lab2.Channel.Flight.{Flight, Flight-map, Carries-Flight}
use network_lab.Lab2.SelectiveRepeat.Sender
use network_lab.Lab2.SelectiveRepeat.Receiver
use network_lab.Lab2.SelectiveRepeat.Receiver.{window}
use network_lab.Lab2.SelectiveRepeat.System.{
  System, start, Step, sender, receiver, Reach, here, next,
}
use network_lab.Lab2.SelectiveRepeat.SenderInv.{SenderInv, Stepped}
use network_lab.Lab2.SelectiveRepeat.Round.{ToldOf, round-Stepped}
use network_lab.Lab2.SelectiveRepeat.ReceiverInv.{ReceiverInv, ReplyUpTo}
use network_lab.Lab2.SelectiveRepeat.Replies.{ReplyUpTo-later, Turned, on_frame-Turned}

record IsSafe (file : List ℕ) (s : System) : Type 0 where
  tx_safe : SenderInv file s.rx.rn s.tx
  rx_safe : ReceiverInv file s.rx
  forward_safe : All (Flight (Genuine file)) s.forward
  backward_safe : All (Flight (ReplyUpTo s.rx.rn)) s.backward

-- More frames received: what was known of the sender still holds.
SenderInv-later :
    {file : List ℕ} {m n : ℕ} {t : Sender.Sender} → m ≤ n → SenderInv file m t → SenderInv file n t
SenderInv-later {file} {m} {n} {t} h v = record {
  behind = omega (arith, v.behind);
  stored = v.stored;
  progress = later t.phase v.progress;
}
  where
    later : (p : Phase) → Progress file m p t.sn t.offset → Progress file n p t.sn t.offset
    later sending q = q
    later draining q = q
    later finished q = omega arith

-- Half of the sequence numbers of a window size up to 9 fits in the 256 slots.
window_fits : (w : ℕ) → w ≤ 9 → window w ≤ 256
window_fits zero h = omega arith
window_fits (suc zero) h = omega arith
window_fits (suc (suc zero)) h = omega arith
window_fits (suc (suc (suc zero))) h = omega arith
window_fits (suc (suc (suc (suc zero)))) h = omega arith
window_fits (suc (suc (suc (suc (suc zero))))) h = omega arith
window_fits (suc (suc (suc (suc (suc (suc zero)))))) h = omega arith
window_fits (suc (suc (suc (suc (suc (suc (suc zero))))))) h = omega arith
window_fits (suc (suc (suc (suc (suc (suc (suc (suc zero)))))))) h = omega arith
window_fits (suc (suc (suc (suc (suc (suc (suc (suc (suc zero))))))))) h = omega arith
window_fits (suc (suc (suc (suc (suc (suc (suc (suc (suc (suc w)))))))))) h = absurd (omega arith)

module _ (window_size : ℕ) (at_most : window_size ≤ 9) (file : List ℕ) (bytes : IsBytes file)
    (small : length file ≤ 44 * 65534) where
  Step-IsSafe : {s t : System} → Step window_size file s t → IsSafe file s → IsSafe file t
  Step-IsSafe {s} (sender {sel} {rest} {ws} clock reports carries) v = record {
    tx_safe = done.0;
    rx_safe = v.rx_safe;
    forward_safe =
        All-append (Flight (Genuine file)) s.forward ws v.forward_safe
          (Carries-Flight (Genuine file) carries done.1);
    backward_safe = told.1;
  }
    where
      told : ToldOf file s.rx.rn sel × All (Flight (ReplyUpTo s.rx.rn)) rest
      told =
          Reports-Told (ReplyUpTo s.rx.rn) (length file + 44 ≤ 44 * s.rx.rn) reports v.rx_safe.whole
            v.backward_safe

      done : Stepped file s.rx.rn (Sender.round clock file s.tx sel)
      done =
          round-Stepped file bytes small s.rx.rn (omega (arith, v.rx_safe.in_range)) clock s.tx sel
            v.tx_safe told.0
  Step-IsSafe {s} (receiver {b} {rest} {ws} on e carries) v = record {
    tx_safe = SenderInv-later done.1 v.tx_safe;
    rx_safe = done.0;
    forward_safe = wire.1;
    backward_safe =
        All-append (Flight (ReplyUpTo rn')) s.backward ws
          (All-map (Flight (ReplyUpTo s.rx.rn)) (Flight (ReplyUpTo rn')) s.backward
            (λ x. Flight-map (ReplyUpTo s.rx.rn) (ReplyUpTo rn') (ReplyUpTo-later done.1))
            v.backward_safe)
          (Carries-Flight (ReplyUpTo rn') carries done.2);
  }
    where
      rn' : ℕ
      rn' = (Receiver.on_frame (window window_size) s.rx b).0.rn

      wire : All (Flight (Genuine file)) (b ∷ rest)
      wire = subst (All (Flight (Genuine file))) e v.forward_safe

      done : Turned file s.rx (Receiver.on_frame (window window_size) s.rx b)
      done =
          on_frame-Turned file small (window window_size) (window_fits window_size at_most) s.rx on
            v.rx_safe wire.0

  Reach-IsSafe : {s t : System} → IsSafe file s → Reach window_size file s t → IsSafe file t
  Reach-IsSafe v here = v
  Reach-IsSafe v (next r st) = Step-IsSafe st (Reach-IsSafe v r)

  start-IsSafe : IsSafe file (start window_size)
  unfolding Sender.start
  start-IsSafe = record {
    tx_safe = record { behind = omega arith; stored = λ i h. elim h [ ]; progress = begun };
    rx_safe = record {
      in_range = omega arith;
      written = refl;
      waiting = refl;
      idle = refl;
      buffered = λ i lt m. absurd (false≢true m);
      going = λ _. omega arith;
      whole = λ e. absurd (false≢true e);
    };
    forward_safe = tt;
    backward_safe = tt;
  }
    where
      begun : Progress file 0 sending 0 0
      begun = elim (dec_lt 0 (length file)) [
        | yes h ↦ inl (refl, h)
        | no h ↦ inr (omega arith, omega arith, omega arith)
      ]

  -- For a window size of 0 the shift of the code has no meaning in C.
  module _ {s : System} (at_least : 1 ≤ window_size)
      (r : Reach window_size file (start window_size) s) where
    -- In every run of a Selective Repeat transfer of a file of bytes, at most 65534 full frames long,
    -- with a window size from 1 to 9 on both sides and over channels that lose frames and flip one bit in
    -- some of them, what the receiver has written is the beginning of the file: the frames before the
    -- one that it expects, in their order, whatever it has buffered.
    pub delivered-take : s.rx.output ≡ take (44 * s.rx.rn) file
    delivered-take = (Reach-IsSafe start-IsSafe r).rx_safe.written

    -- In every run of a Selective Repeat transfer of a file of bytes, at most 65534 full frames long,
    -- with a window size from 1 to 9 on both sides and over channels that lose frames and flip one bit in
    -- some of them: when the receiver has stopped, or the sender has returned, the receiver has written
    -- exactly the file.
    pub delivered-file : (s.rx.stopped ≡ true) ⊎ (s.tx.phase ≡ finished) → s.rx.output ≡ file
    delivered-file over = delivered-take ∙ take-all (44 * s.rx.rn) file (omega (arith, whole over))
      where
        v : IsSafe file s
        v = Reach-IsSafe start-IsSafe r

        whole : (s.rx.stopped ≡ true) ⊎ (s.tx.phase ≡ finished) → length file + 44 ≤ 44 * s.rx.rn
        whole (inl e) = v.rx_safe.whole e
        whole (inr e) = rw e at v.tx_safe.progress
