-- ===== src/Lab2/GoBackN/Round.antt =====
-- lab2/arq/sender.c, Go-Back-N: a round of the sender keeps the invariant, whatever `select` reports.
use network_lab.Prelude.{
  ℕ, zero, suc, lt→ltb, ◌+◌, ◌-◌, ◌*◌, ◌%◌, ◌^◌, ◌≤◌, ◌<◌, ◌≡◌, refl, inl, inr, true, false, List,
  [], ◌∷◌, length, arith, All, All-append, ltb, leb, Bool-cases,
}
use network_lab.Lab1.Checksum.Sum.{IsBytes}
use network_lab.Lab1.Frame.{Frame}
use network_lab.Lab2.Arq.{timer_start_window, Select, failed, timeout, arrived}
use network_lab.Lab2.Channel.Flight.{Flight, Outgoing}
use network_lab.Lab2.Arq.Genuine.{Genuine, AckUpTo}
use network_lab.Lab2.GoBackN.System.{sends}
use network_lab.Lab2.GoBackN.Sender.{
  Sender, Phase, sending, draining, finished, on_acks, resend, resend_window, gbn_wait_step, wait,
  main_round, drain_round, round_in, round,
}
use network_lab.Lab2.GoBackN.Window.{Same, on_acks-Same, on_acks-behind, sends-append}
use network_lab.Lab2.GoBackN.SenderInv.{
  SenderInv, Progress, Told, outgoing, send_data-SenderInv, send_eot-SenderInv,
}

-- The invariant is about the upper part of the window, which acknowledgements leave alone.
Same-SenderInv :
    {file : List ℕ} {n : ℕ} {s t : Sender}
    → Same s t
    → t.sf ≤ n
    → SenderInv file n s
    → SenderInv file n t
Same-SenderInv {file} {n} {s} {t} same h v = record {
  behind = h;
  stored = λ i k. rw (same.store_same, same.sw_same) (v.stored i (omega (arith, same.sn_same)));
  progress = rw (same.phase_same, same.sn_same, same.offset_same) v.progress;
}

not_ltb : (a b : ℕ) → ltb a b ≡ false → b ≤ a
not_ltb a b h = ground arith

module _ (file : List ℕ) (bytes : IsBytes file) where
  resend-Outgoing :
      (frames : ℕ → Frame) (sw sn left i : ℕ)
      → ((j : ℕ) → j < sn → Genuine file (frames (j % sw)))
      → left ≤ sn - i
      → All (Outgoing (Genuine file)) (sends (resend frames sw left i))
  unfolding resend sends
  resend-Outgoing frames sw sn zero i g h = tt
  resend-Outgoing frames sw sn (suc left) i g h = (
    outgoing file bytes (g i (omega arith)),
    resend-Outgoing frames sw sn left (i + 1) g (omega arith),
  )

  module _ (small : length file ≤ 44 * 65534) (n : ℕ) (n_fits : n < 2 ^ 16) where
    resend_window-SenderInv :
        (s : Sender)
        → SenderInv file n s
        → SenderInv file n (resend_window s).0
          × All (Outgoing (Genuine file)) (sends (resend_window s).1)
    unfolding resend_window
    resend_window-SenderInv s v = (
      record { behind = v.behind; stored = v.stored; progress = v.progress },
      rw (sends-append (resend s.frame_store s.sw (s.sn - s.sf) s.sf) (timer_start_window ∷ [])) (
          All-append (Outgoing (Genuine file)) _ _
            (resend-Outgoing s.frame_store s.sw s.sn (s.sn - s.sf) s.sf v.stored (omega arith))
            (unfold sends in tt)),
    )

    on_acks-SenderInv :
        (s : Sender) (bs : List (List ℕ))
        → SenderInv file n s
        → All (Flight (AckUpTo n)) bs
        → SenderInv file n (on_acks s bs).0
    on_acks-SenderInv s bs v fl =
        Same-SenderInv (on_acks-Same s bs).0 (on_acks-behind n n_fits s bs v.behind fl) v

    wait-SenderInv :
        (s : Sender) (sel : Select)
        → SenderInv file n s
        → Told file n sel
        → SenderInv file n (wait s sel).0 × All (Outgoing (Genuine file)) (sends (wait s sel).1)
    unfolding wait gbn_wait_step
    wait-SenderInv s failed v t = (v, unfold sends in tt)
    wait-SenderInv s timeout v t = resend_window-SenderInv s v
    wait-SenderInv s (arrived frames false) v t =
        (on_acks-SenderInv s frames v t.0, rw (on_acks-Same s frames).1 tt)
    wait-SenderInv s (arrived frames true) v t =
        let v' = on_acks-SenderInv s frames v t.0 in
        (
          record { behind = v'.behind; stored = v'.stored; progress = t.1 refl },
          rw (on_acks-Same s frames).1 tt,
        )

    main_round-SenderInv :
        (s : Sender) (sel : Select)
        → SenderInv file n s
        → Told file n sel
        → s.phase ≡ sending
        → SenderInv file n (main_round file s sel).0
          × All (Outgoing (Genuine file)) (sends (main_round file s sel).1)
    unfolding main_round
    main_round-SenderInv s sel v t e = go (rw e at v.progress)
      where
        go :
            Progress file n sending s.sn s.offset
            → SenderInv file n (main_round file s sel).0
              × All (Outgoing (Genuine file)) (sends (main_round file s sel).1)
        go (inl (off, below)) =
            let more : ltb s.offset (length file) ≡ true = lt→ltb _ _ (omega arith) in
            elim (Bool-cases (leb (s.sf + s.sw) s.sn)) [
              | inl full ↦ rw (more, full) (wait-SenderInv s sel v t)
              | inr room ↦ rw (more, room) (send_data-SenderInv file bytes small n s v e off below)
            ]
        go (inr (off, all, near)) =
            let none_left : ltb s.offset (length file) ≡ false = ground arith in
            rw none_left (send_eot-SenderInv file bytes small n s v all near)

    drain_round-SenderInv :
        (s : Sender) (sel : Select)
        → SenderInv file n s
        → Told file n sel
        → s.phase ≡ draining
        → SenderInv file n (drain_round s sel).0
          × All (Outgoing (Genuine file)) (sends (drain_round s sel).1)
    unfolding drain_round
    drain_round-SenderInv s sel v t e = elim (Bool-cases (ltb s.sf s.sn)) [
      | inl left ↦ rw left (wait-SenderInv s sel v t)
      | inr empty ↦ rw empty (
        record {
          behind = v.behind;
          stored = v.stored;
          progress = acked (rw e at v.progress) (not_ltb s.sf s.sn empty);
        },
        unfold sends in tt,
      )
    ]
      where
        acked : Progress file n draining s.sn s.offset → s.sn ≤ s.sf → length file + 44 ≤ 44 * n
        acked p h = omega (arith, v.behind)

    -- A round keeps the invariant, and sends frames of the file only.
    pub round-SenderInv :
        (s : Sender) (sel : Select)
        → SenderInv file n s
        → Told file n sel
        → SenderInv file n (round file s sel).0
          × All (Outgoing (Genuine file)) (sends (round file s sel).1)
    unfolding round
    round-SenderInv s sel v t = go s.phase refl
      where
        go :
            (p : Phase)
            → s.phase ≡ p
            → SenderInv file n (round_in p file s sel).0
              × All (Outgoing (Genuine file)) (sends (round_in p file s sel).1)
        go sending e = unfold round_in in main_round-SenderInv s sel v t e
        go draining e = unfold round_in in drain_round-SenderInv s sel v t e
        go finished e = unfold round_in in (v, unfold sends in tt)
