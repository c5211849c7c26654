-- ===== src/Lab2/GoBackN/Lossless.antt =====
-- lab2: a Go-Back-N transfer in which every frame of the sender arrives, and of the acknowledgements
-- those that the sender reads.
use network_lab.Prelude.{
  ℕ, zero, suc, ◌+◌, ◌*◌, ◌≤◌, ◌<◌, ◌≡◌, refl, inl, inr, true, List, length, arith,
}
use native.Mathlib.Decide.{dec_lt}
use network_lab.Lab1.Checksum.Sum.{IsBytes}
use network_lab.Lab2.Arq.Progress.{Progress}
use network_lab.Lab2.GoBackN.Sender.{Sender, sending, finished, start}
use network_lab.Lab2.GoBackN.Receiver
use network_lab.Lab2.GoBackN.Receiver.{Receiver, deliver}
use network_lab.Lab2.GoBackN.System as System
use network_lab.Lab2.GoBackN.System.{sends, Step, sender, expires, Reach, here, next}
use network_lab.Lab2.GoBackN.Slots.{start-sw}
use network_lab.Lab2.GoBackN.Safety.{output-file}
use network_lab.Lab2.GoBackN.Exchange.{still}
use network_lab.Lab2.GoBackN.InStep.{InStep}
use network_lab.Lab2.GoBackN.NextFrame.{next_frame}
use network_lab.Lab2.GoBackN.LastFrame.{last_frame}

module _ (file : List ℕ) (bytes : IsBytes file) (small : length file ≤ 44 * 65534) (sw : ℕ)
    (pos : 0 < sw) where
  -- As many turns as there are bytes are enough.
  finishes :
      {s : System.System} (left : ℕ) (tx : Sender) (rx : Receiver)
      → InStep file sw tx rx
      → length file ≤ tx.offset + left
      → Reach file s (still tx rx)
      → (u : System.System) × Reach file s u × (u.rx.stopped ≡ true) × (u.tx.phase ≡ finished)
  finishes zero tx rx v near r = last_frame file bytes small sw pos tx rx v (omega arith) r
  finishes (suc left) tx rx v near r = elim (dec_lt tx.offset (length file)) [
    | no behind ↦ last_frame file bytes small sw pos tx rx v (omega arith) r
    | yes more ↦
        let (tx', rx', r', v', further) = next_frame file bytes small sw pos tx rx v more r in
        finishes left tx' rx' v' (omega arith) r'
  ]

start-InStep :
    (file : List ℕ) (window_size : ℕ)
    → 0 < (start window_size).sw
    → InStep file (start window_size).sw (start window_size) Receiver.start
unfolding start
start-InStep file w pos = record {
  now = refl;
  same = refl;
  far = begun;
  size = refl;
  room = λ _. omega (arith, pos);
  behind = omega arith;
  going = refl;
}
  where
    begun : Progress file 0 sending 0 0
    begun = elim (dec_lt 0 (length file)) [
      | yes h ↦ inl (refl, h)
      | no h ↦ inr (omega arith, omega arith, omega arith)
    ]

-- Every file of bytes, at most 65534 full frames long, has for every window size from 1 to 8 a run of
-- the two Go-Back-N programs, over channels that may lose frames, in which the receiver has stopped,
-- the sender has returned, and what the receiver has written is the file.
pub Reach-returned :
    (file : List ℕ) (window_size : ℕ)
    → IsBytes file
    → length file ≤ 44 * 65534
    → 1 ≤ window_size
    → window_size ≤ 8
    → (s : System.System) × Reach file (System.start window_size) s
      × (s.rx.stopped ≡ true)
      × (s.tx.phase ≡ finished)
      × (s.rx.output ≡ file)
Reach-returned file window_size bytes small at_least at_most =
    let (_, pos, _) = start-sw window_size at_least at_most in
    let (s, r, stopped, over) =
      finishes file bytes small (start window_size).sw pos (length file) (start window_size)
        Receiver.start (start-InStep file window_size pos) (omega arith) here in
    (s, r, stopped, over, output-file file bytes small window_size at_least at_most r (inl stopped))
