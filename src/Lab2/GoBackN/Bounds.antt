-- ===== src/Lab2/GoBackN/Bounds.antt =====
-- lab2/arq/sender.c, Go-Back-N: the accesses to `frame_store[256]`. In the model the array goes on
-- behind its end; what stands there is exchanged, and nothing comes of it.
use network_lab.Prelude.{
  ℕ, zero, suc, ◌+◌, ◌-◌, ◌%◌, ◌≤◌, ◌<◌, ◌≡◌, refl, ap₂, ◌∙◌, inl, inr, true, false, List, [], ◌∷◌,
  length, ltb, leb, ◌==◌, if◌then◌else◌, arith, Bool-cases, lt→ltb,
}
use mathlib.Core.Path.{fun_ext}
use native.Mathlib.Nat.{mod-lt}
use network_lab.Lab1.Frame.{Frame, to_bytes, of_bytes}
use network_lab.Lab2.Arq.{
  Call, mark_send_time, channel_send, Select, failed, timeout, arrived, data_frame, eot_frame,
}
use network_lab.Lab2.GoBackN.Sender.{
  Sender, Phase, sending, draining, finished, slide, slide_to, store, start, acknowledges, on_ack,
  on_acks, resend, resend_window, gbn_wait_step, wait, send_new, send_data, send_eot, main_round,
  drain_round, round_in, round,
}
use network_lab.Lab2.GoBackN.System as System
use network_lab.Lab2.GoBackN.System.{Reach, here, next, Step, sender, receiver}
use network_lab.Lab2.GoBackN.Window.{on_acks-Same}
use network_lab.Lab2.GoBackN.Slots.{start-sw}

-- The array, with other frames behind its end.
abbrev beyond : (ℕ → Frame) → (ℕ → Frame) → ℕ → Frame
beyond behind frames i = if ltb i 256 then frames i else behind i

abbrev pub overlay : (ℕ → Frame) → Sender → Sender
overlay behind s = record s { frame_store = beyond behind s.frame_store }

-- The result of a function of the sender, with the same frames behind the array.
abbrev both : (ℕ → Frame) → Sender × List Call → Sender × List Call
both behind (s, calls) = (overlay behind s, calls)

beyond-inside : (behind frames : ℕ → Frame) (i : ℕ) → i < 256 → beyond behind frames i ≡ frames i
beyond-inside behind frames i h = rw (lt→ltb i 256 h) refl

beyond-store :
    (behind frames : ℕ → Frame) (slot : ℕ) (f : Frame)
    → slot < 256
    → store (beyond behind frames) slot f ≡ beyond behind (store frames slot f)
beyond-store behind frames slot f h = fun_ext (λ i. at i)
  where
    at : (i : ℕ) → store (beyond behind frames) slot f i ≡ beyond behind (store frames slot f) i
    at i = elim (Bool-cases (i == slot)) [
      | inl e ↦ rw (e, lt→ltb i 256 (ground arith)) refl
      | inr e ↦ rw e refl
    ]

slot-lt : (i sw : ℕ) → 0 < sw → sw < 256 → i % sw < 256
slot-lt i sw pos small = omega (arith, mod-lt i pos)

module _ (behind : ℕ → Frame) where
  slide_to-both : (a : ℕ) (s : Sender) → slide_to a (overlay behind s) ≡ both behind (slide_to a s)
  unfolding slide_to
  slide_to-both a s = elim (Bool-cases (slide (a - s.sf) s.sf == s.sn)) [
    | inl e ↦ rw e refl
    | inr e ↦ rw e refl
  ]

  on_ack-both : (s : Sender) (b : List ℕ) → on_ack (overlay behind s) b ≡ both behind (on_ack s b)
  unfolding on_ack acknowledges
  on_ack-both s b = elim (Bool-cases (acknowledges s b)) [
    | inl e ↦ rw e (slide_to-both (of_bytes b).header.frame_seq s)
    | inr e ↦ rw e refl
  ]

  on_acks-both :
      (s : Sender) (bs : List (List ℕ)) → on_acks (overlay behind s) bs ≡ both behind (on_acks s bs)
  unfolding on_acks
  on_acks-both s [] = refl
  on_acks-both s (b ∷ bs) = rw (on_ack-both s b, on_acks-both (on_ack s b).0 bs) refl

  resend-both :
      (frames : ℕ → Frame) (sw left i : ℕ)
      → 0 < sw
      → sw < 256
      → resend (beyond behind frames) sw left i ≡ resend frames sw left i
  unfolding resend
  resend-both frames sw zero i pos small = refl
  resend-both frames sw (suc left) i pos small =
      ap₂ (λ f cs. mark_send_time i ∷ channel_send (to_bytes f) ∷ cs)
        (beyond-inside behind frames (i % sw) (slot-lt i sw pos small))
        (resend-both frames sw left (i + 1) pos small)

  module _ (s : Sender) (pos : 0 < s.sw) (small : s.sw < 256) where
    wait-both : (sel : Select) → wait (overlay behind s) sel ≡ both behind (wait s sel)
    unfolding wait gbn_wait_step resend_window
    wait-both failed = refl
    wait-both timeout = rw (resend-both s.frame_store s.sw (s.sn - s.sf) s.sf pos small) refl
    wait-both (arrived frames true) = rw (on_acks-both s frames) refl
    wait-both (arrived frames false) = rw (on_acks-both s frames) refl

    send_new-both : (f : Frame) → send_new (overlay behind s) f ≡ both behind (send_new s f)
    unfolding send_new
    send_new-both f =
        rw (beyond-store behind s.frame_store (s.sn % s.sw) f (slot-lt s.sn s.sw pos small)) refl

    main_round-both :
        (file : List ℕ) (sel : Select)
        → main_round file (overlay behind s) sel ≡ both behind (main_round file s sel)
    unfolding main_round send_data send_eot
    main_round-both file sel = elim (Bool-cases (ltb s.offset (length file))) [
      | inl more ↦ elim (Bool-cases (leb (s.sf + s.sw) s.sn)) [
        | inl full ↦ rw (more, full) (wait-both sel)
        | inr room ↦ rw (more, room, send_new-both (data_frame file s.offset s.sn)) refl
      ]
      | inr all ↦ rw (all, send_new-both (eot_frame s.sn)) refl
    ]

    drain_round-both :
        (sel : Select) → drain_round (overlay behind s) sel ≡ both behind (drain_round s sel)
    unfolding drain_round
    drain_round-both sel = elim (Bool-cases (ltb s.sf s.sn)) [
      | inl left ↦ rw left (wait-both sel)
      | inr empty ↦ rw empty refl
    ]

    round_in-both :
        (p : Phase) (file : List ℕ) (sel : Select)
        → round_in p file (overlay behind s) sel ≡ both behind (round_in p file s sel)
    unfolding round_in
    round_in-both sending file sel = main_round-both file sel
    round_in-both draining file sel = drain_round-both sel
    round_in-both finished file sel = refl

wait-sw : (s : Sender) (sel : Select) → (wait s sel).0.sw ≡ s.sw
unfolding wait gbn_wait_step resend_window
wait-sw s failed = refl
wait-sw s timeout = refl
wait-sw s (arrived frames true) = (on_acks-Same s frames).0.sw_same
wait-sw s (arrived frames false) = (on_acks-Same s frames).0.sw_same

round_in-sw :
    (p : Phase) (file : List ℕ) (s : Sender) (sel : Select) → (round_in p file s sel).0.sw ≡ s.sw
unfolding round_in main_round drain_round send_data send_eot send_new
round_in-sw sending file s sel = ground (arith, wait-sw s sel)
round_in-sw draining file s sel = ground (arith, wait-sw s sel)
round_in-sw finished file s sel = refl

round-sw : (file : List ℕ) (s : Sender) (sel : Select) → (round file s sel).0.sw ≡ s.sw
unfolding round
round-sw file s sel = round_in-sw s.phase file s sel

-- The window keeps its size in every run.
Reach-sw :
    {file : List ℕ} (window_size : ℕ) {s : System.System}
    → Reach file (System.start window_size) s
    → s.tx.sw ≡ (start window_size).sw
Reach-sw window_size here = refl
Reach-sw {file} window_size (next {t} r (sender {sel} reports carries)) =
    round-sw file t.tx sel ∙ Reach-sw window_size r
Reach-sw window_size (next r (receiver runs taken carries)) = Reach-sw window_size r

-- In every state of a Go-Back-N transfer of any file with a window size from 1 to 8, a round of the
-- sender stays inside `frame_store[256]`: with any other frames behind the array, it makes the same
-- calls, so that it has read none of them, and leaves the same state with those frames where they
-- were, so that it has written none of them.
pub round-overlay :
    (file : List ℕ) (window_size : ℕ) {s : System.System}
    → 1 ≤ window_size
    → window_size ≤ 8
    → Reach file (System.start window_size) s
    → (behind : ℕ → Frame) (sel : Select)
    → round file (overlay behind s.tx) sel
      ≡ (overlay behind (round file s.tx sel).0, (round file s.tx sel).1)
unfolding round
round-overlay file window_size {s} at_least at_most r behind sel =
    let (_, pos, small) = start-sw window_size at_least at_most in
    round_in-both behind s.tx (omega (arith, Reach-sw window_size r, pos))
      (omega (arith, Reach-sw window_size r, small)) s.tx.phase file sel
