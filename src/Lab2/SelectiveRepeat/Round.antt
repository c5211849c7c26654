-- ===== src/Lab2/SelectiveRepeat/Round.antt =====
-- lab2/arq/sender.c, Selective Repeat: a round of the sender keeps the invariant, whatever `select`
-- reports and whatever the clock reads.
use network_lab.Prelude.{
  ℕ, ◌+◌, ◌-◌, ◌*◌, ◌%◌, ◌^◌, ◌≤◌, ◌<◌, ◌≡◌, refl, sym, ap, ◌∙◌, inl, inr, true, false, none, some,
  List, Option, length, arith, u16, lt→ltb, ltb, leb, Bool-cases, All,
}
use mathlib.Core.Path.{subst}
use mathlib.Core.Option.{none-ne-some}
use network_lab.Lab1.Checksum.Sum.{IsBytes}
use network_lab.Lab1.Frame.{Frame}
use network_lab.Lab2.Arq.{Select, failed, timeout, arrived, data_frame, eot_frame, chunk_len}
use network_lab.Lab2.Arq.Calls.{sends}
use network_lab.Lab2.Arq.Frames.{data_frame-nth, eot_frame-nth}
use network_lab.Lab2.Arq.Genuine.{Genuine}
use network_lab.Lab2.Arq.Progress.{Progress, outgoing, store-Genuine, Progress-suc}
use network_lab.Lab2.Arq.Reports.{Told}
use network_lab.Lab2.Arq.Window.{Phase, sending, draining, finished}
use network_lab.Lab2.Channel.Flight.{Outgoing}
use network_lab.Lab2.SelectiveRepeat.ReceiverInv.{ReplyUpTo}
use network_lab.Lab2.SelectiveRepeat.SenderInv.{
  SenderInv, Stepped, earliest-in_window, resend-Stepped, on_replies-Stepped,
}
use network_lab.Lab2.SelectiveRepeat.Sender.{
  Sender, rto_ns, resend_earliest, sr_wait_step, wait, send_new, send_data, send_eot, main_round,
  drain_round, round_in, round,
}

-- What the sender may be told: replies up to `n`, and the end only of a whole transfer.
abbrev pub ToldOf : List ℕ → ℕ → Select → Type 0
ToldOf file n = Told (ReplyUpTo n) (length file + 44 ≤ 44 * n)

not_ltb : (a b : ℕ) → ltb a b ≡ false → b ≤ a
not_ltb a b h = ground arith

module _ (file : List ℕ) (bytes : IsBytes file) (small : length file ≤ 44 * 65534) (n : ℕ)
    (n_fits : n < 2 ^ 16) where
  resend_earliest-Stepped :
      (time : ℕ) (s : Sender) (found : Option ℕ)
      → SenderInv file n s
      → ((q : ℕ) → found ≡ some q → q < s.sn)
      → Stepped file n (resend_earliest time s found)
  unfolding resend_earliest
  resend_earliest-Stepped time s none v h = (v, unfold sends in tt)
  resend_earliest-Stepped time s (some q) v h =
      resend-Stepped file bytes n n_fits time s q v (h q refl)

  wait-Stepped :
      (clock : ℕ → ℕ) (s : Sender) (sel : Select)
      → SenderInv file n s
      → ToldOf file n sel
      → Stepped file n (wait clock s sel)
  unfolding wait sr_wait_step
  wait-Stepped clock s failed v t = (v, unfold sends in tt)
  wait-Stepped clock s timeout v t = resend_earliest-Stepped (clock 1) s _ v (λ q e. omega (
    arith,
    earliest-in_window s.timers s.sw (clock 0) (s.sn - s.sf) s.sf rto_ns none s.sf
        (s.sf + (s.sn - s.sf)) (omega arith) (omega arith) (λ p bad. absurd (none-ne-some p bad)) q
        e,
  ))
  wait-Stepped clock s (arrived frames false) v t =
      on_replies-Stepped file bytes n n_fits clock 0 s frames v t.0
  wait-Stepped clock s (arrived frames true) v t =
      let (v', out) = on_replies-Stepped file bytes n n_fits clock 0 s frames v t.0 in
      (record { behind = v'.behind; stored = v'.stored; progress = t.1 refl }, out)

  -- A new frame that is frame `sn` of the file.
  send_new-stored :
      (time : ℕ) (s : Sender) (f : Frame)
      → SenderInv file n s
      → s.sn + 1 < 2 ^ 16
      → Genuine file f
      → (i : ℕ) → i < (send_new time s f).0.sn
      → Genuine file ((send_new time s f).0.frame_store (i % (send_new time s f).0.sw))
  unfolding send_new
  send_new-stored time s f v h g i k =
      store-Genuine file s.sw s.sn s.frame_store f g v.stored i (omega arith)

  send_new-Outgoing :
      (time : ℕ) (s : Sender) (f : Frame)
      → Genuine file f
      → All (Outgoing (Genuine file)) (sends (send_new time s f).1)
  unfolding send_new sends
  send_new-Outgoing time s f g = (outgoing file bytes g, tt)

  send_data-Stepped :
      (time : ℕ) (s : Sender)
      → SenderInv file n s
      → s.phase ≡ sending
      → s.offset ≡ 44 * s.sn
      → 44 * s.sn < length file
      → Stepped file n (send_data time file s)
  unfolding send_data
  send_data-Stepped time s v ph off below = (
    record {
      behind = unfold send_new in v.behind;
      stored = send_new-stored time s _ v (omega arith) genuine;
      progress =
          unfold send_new in
          subst (λ p. Progress file n p (u16 (s.sn + 1)) (s.offset + chunk_len file s.offset))
            (sym ph) (Progress-suc file n s.sn s.offset (u16 (s.sn + 1)) off below (omega arith));
    },
    send_new-Outgoing time s _ genuine,
  )
    where
      genuine : Genuine file (data_frame file s.offset s.sn)
      genuine = (s.sn, omega arith, ap (λ o. data_frame file o s.sn) off ∙ data_frame-nth file s.sn)

  send_eot-Stepped :
      (time : ℕ) (s : Sender)
      → SenderInv file n s
      → length file ≤ 44 * s.sn
      → 44 * s.sn < length file + 44
      → Stepped file n (send_eot time s)
  unfolding send_eot
  send_eot-Stepped time s v all k = (
    record {
      behind = unfold send_new in v.behind;
      stored = send_new-stored time s _ v (omega arith) genuine;
      progress = unfold send_new in omega arith;
    },
    send_new-Outgoing time s _ genuine,
  )
    where
      genuine : Genuine file (eot_frame s.sn)
      genuine = (s.sn, k, eot_frame-nth file s.sn all)

  main_round-Stepped :
      (clock : ℕ → ℕ) (s : Sender) (sel : Select)
      → SenderInv file n s
      → ToldOf file n sel
      → s.phase ≡ sending
      → Stepped file n (main_round clock file s sel)
  unfolding main_round
  main_round-Stepped clock s sel v t e = go (rw e at v.progress)
    where
      go : Progress file n sending s.sn s.offset → Stepped file n (main_round clock file s sel)
      go (inl (off, below)) =
          let more : ltb s.offset (length file) ≡ true = lt→ltb _ _ (omega arith) in
          elim (Bool-cases (leb (s.sf + s.sw) s.sn)) [
            | inl full ↦ rw (more, full) (wait-Stepped clock s sel v t)
            | inr room ↦ rw (more, room) (send_data-Stepped (clock 0) s v e off below)
          ]
      go (inr (off, all, near)) =
          let none_left : ltb s.offset (length file) ≡ false = ground arith in
          rw none_left (send_eot-Stepped (clock 0) s v all near)

  drain_round-Stepped :
      (clock : ℕ → ℕ) (s : Sender) (sel : Select)
      → SenderInv file n s
      → ToldOf file n sel
      → s.phase ≡ draining
      → Stepped file n (drain_round clock s sel)
  unfolding drain_round
  drain_round-Stepped clock s sel v t e = elim (Bool-cases (ltb s.sf s.sn)) [
    | inl left ↦ rw left (wait-Stepped clock s sel v t)
    | inr empty ↦ rw empty (
      record {
        behind = v.behind;
        stored = v.stored;
        progress = acked (rw e at v.progress) (not_ltb s.sf s.sn empty);
      },
      unfold sends in tt,
    )
  ]
    where
      acked : Progress file n draining s.sn s.offset → s.sn ≤ s.sf → length file + 44 ≤ 44 * n
      acked p h = omega (arith, v.behind)

  -- A round keeps the invariant, and sends frames of the file only.
  pub round-Stepped :
      (clock : ℕ → ℕ) (s : Sender) (sel : Select)
      → SenderInv file n s
      → ToldOf file n sel
      → Stepped file n (round clock file s sel)
  unfolding round
  round-Stepped clock s sel v t = go s.phase refl
    where
      go : (p : Phase) → s.phase ≡ p → Stepped file n (round_in p clock file s sel)
      go sending e = unfold round_in in main_round-Stepped clock s sel v t e
      go draining e = unfold round_in in drain_round-Stepped clock s sel v t e
      go finished e = unfold round_in in (v, unfold sends in tt)
