-- ===== src/Lab2/SelectiveRepeat/SenderInv.antt =====
-- lab2/arq/sender.c, Selective Repeat: replies and timeouts make the sender resend frames of the file
-- only, and its window never passes what the receiver has.
use network_lab.Prelude.{
  ℕ, zero, suc, ◌+◌, ◌-◌, ◌%◌, ◌^◌, ◌≤◌, ◌<◌, ◌≡◌, refl, ap, inl, inr, true, Option, some, List, [],
  ◌∷◌, ◌&&◌, ◌==◌, ltb, leb, arith, u16, Bool-cases, All, All-append,
}
use network_lab.Lab1.Checksum.Sum.{IsBytes}
use network_lab.Lab1.Frame.{of_bytes}
use network_lab.Lab1.Frame.Seal.{fcs_matches}
use network_lab.Lab2.Arq.{Call, reply_frame, frame_ack, frame_nak}
use network_lab.Lab2.Arq.Calls.{sends, sends-append}
use network_lab.Lab2.Arq.Frames.{make_frame-fields}
use network_lab.Lab2.Arq.Genuine.{Genuine}
use network_lab.Lab2.Arq.Progress.{Progress, outgoing}
use network_lab.Lab2.Arq.Window.{slide, slide_lem}
use network_lab.Lab2.Channel.Flight.{Flight, Outgoing, Flight-of_bytes}
use network_lab.Lab2.SelectiveRepeat.ReceiverInv.{ReplyUpTo}
use network_lab.Lab2.SelectiveRepeat.Sender.{
  TimerSlot, Sender, earliest, remaining, resend, on_nak, purge, on_ack, on_reply, on_replies,
}

pub record SenderInv (file : List ℕ) (n : ℕ) (s : Sender) : Type 0 where
  pub behind : s.sf ≤ n
  pub stored : (i : ℕ) → i < s.sn → Genuine file (s.frame_store (i % s.sw))
  pub progress : Progress file n s.phase s.sn s.offset

-- What a step of the sender leaves: the invariant, and frames of the file on the wire.
abbrev pub Stepped : List ℕ → ℕ → Sender × List Call → Type 0
Stepped file n t = SenderInv file n t.0 × All (Outgoing (Genuine file)) (sends t.1)

-- The number that is read in a reply which passes the check.
pub reply-le :
    (n : ℕ) {b : List ℕ}
    → n < 2 ^ 16
    → Flight (ReplyUpTo n) b
    → fcs_matches b ≡ true
    → (of_bytes b).header.frame_seq ≤ n
unfolding reply_frame
reply-le n {b} small fl ok =
    let (t, a, ht, le, e) = Flight-of_bytes (ReplyUpTo n) fl ok in
    omega
      (arith, ap (λ f. f.header.frame_seq) e, make_frame-fields t a [] (omega arith) (omega arith))

purge-slide :
    (left sw sf : ℕ) (timers : ℕ → TimerSlot) → (purge left sw sf timers).0 ≡ slide left sf
unfolding purge slide
purge-slide zero sw sf timers = refl
purge-slide (suc left) sw sf timers = purge-slide left sw (u16 (sf + 1)) _

-- The frame that a timeout resends lies in the window.
pub earliest-in_window :
    (timers : ℕ → TimerSlot) (sw now left i least : ℕ) (found : Option ℕ) (lo hi : ℕ)
    → lo ≤ i
    → i + left ≤ hi
    → ((q : ℕ) → found ≡ some q → (lo ≤ q) × (q < hi))
    → (q : ℕ) → earliest timers sw now left i least found ≡ some q
    → (lo ≤ q) × (q < hi)
unfolding earliest
earliest-in_window timers sw now zero i least found lo hi a b h q e = h q e
earliest-in_window timers sw now (suc left) i least found lo hi a b h q e =
    elim (Bool-cases
      ((timers (i % sw)).is_pending && ltb (remaining now (timers (i % sw))) least)) [
        | inl sooner ↦
            earliest-in_window timers sw now left (i + 1) (remaining now (timers (i % sw))) (some i)
              lo hi (omega arith) (omega arith) (λ p same. ground arith) q (rw sooner at e)
        | inr later ↦
            earliest-in_window timers sw now left (i + 1) least found lo hi (omega arith)
              (omega arith) h q (rw later at e)
      ]

module _ (file : List ℕ) (bytes : IsBytes file) (n : ℕ) (n_fits : n < 2 ^ 16) where
  pub resend-Stepped :
      (time : ℕ) (s : Sender) (seq : ℕ)
      → SenderInv file n s
      → seq < s.sn
      → Stepped file n (resend time s seq)
  unfolding resend sends
  resend-Stepped time s seq v h = (
    record { behind = v.behind; stored = v.stored; progress = v.progress },
    (outgoing file bytes (v.stored seq h), tt),
  )

  on_nak-Stepped :
      (time : ℕ) (s : Sender) (seq : ℕ) → SenderInv file n s → Stepped file n (on_nak time s seq)
  unfolding on_nak
  on_nak-Stepped time s seq v = elim (Bool-cases (leb s.sf seq && ltb seq s.sn)) [
    | inl inside ↦ rw inside (resend-Stepped time s seq v (ground arith))
    | inr outside ↦ rw outside (v, unfold sends in tt)
  ]

  on_ack-Stepped :
      (s : Sender) (seq : ℕ) → SenderInv file n s → seq ≤ n → Stepped file n (on_ack s seq)
  unfolding on_ack
  on_ack-Stepped s seq v le = elim (Bool-cases (ltb s.sf seq && leb seq s.sn)) [
    | inr outside ↦ rw outside (v, unfold sends in tt)
    | inl inside ↦
        let above : s.sf < seq = ground arith in
        let slid = slide_lem (seq - s.sf) s.sf (omega arith) in
        let purged = purge-slide (seq - s.sf) s.sw s.sf s.timers in
        rw inside (
          record {
            behind = omega (arith, purged, slid, above);
            stored = v.stored;
            progress = v.progress;
          },
          unfold sends in tt,
        )
  ]

  on_reply-Stepped :
      (time : ℕ) (s : Sender) (b : List ℕ)
      → SenderInv file n s
      → Flight (ReplyUpTo n) b
      → Stepped file n (on_reply time s b)
  unfolding on_reply
  on_reply-Stepped time s b v fl = elim (Bool-cases (fcs_matches b)) [
    | inr bad ↦ rw bad (v, unfold sends in tt)
    | inl ok ↦ elim (Bool-cases ((of_bytes b).header.frame_type == frame_nak)) [
      | inl nak ↦ rw (ok, nak) (on_nak-Stepped time s (of_bytes b).header.frame_seq v)
      | inr not_nak ↦ elim (Bool-cases ((of_bytes b).header.frame_type == frame_ack)) [
        | inl ack ↦
            rw (ok, not_nak, ack)
              (on_ack-Stepped s (of_bytes b).header.frame_seq v (reply-le n n_fits fl ok))
        | inr other ↦ rw (ok, not_nak, other) (v, unfold sends in tt)
      ]
    ]
  ]

  pub on_replies-Stepped :
      (clock : ℕ → ℕ) (i : ℕ) (s : Sender) (bs : List (List ℕ))
      → SenderInv file n s
      → All (Flight (ReplyUpTo n)) bs
      → Stepped file n (on_replies clock i s bs)
  unfolding on_replies
  on_replies-Stepped clock i s [] v fl = (v, unfold sends in tt)
  on_replies-Stepped clock i s (b ∷ bs) v fl =
      let first = on_reply (clock (i + 1)) s b in
      let (v', out) = on_reply-Stepped (clock (i + 1)) s b v fl.0 in
      let (v'', more) = on_replies-Stepped clock (i + 1) first.0 bs v' fl.1 in
      (
        v'',
        rw (sends-append first.1 (on_replies clock (i + 1) first.0 bs).1)
            (All-append (Outgoing (Genuine file)) _ _ out more),
      )
