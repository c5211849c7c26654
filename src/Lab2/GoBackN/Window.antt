-- ===== src/Lab2/GoBackN/Window.antt =====
-- lab2/arq/sender.c, Go-Back-N: the lower end of the window moves to the acknowledged number and
-- never past what the receiver has; the rest of the state stays.
use network_lab.Prelude.{
  ℕ, ◌-◌, ◌^◌, ◌≤◌, ◌<◌, ◌≡◌, refl, ap₂, ◌∙◌, true, List, [], ◌∷◌, ◌++◌, ◌==◌, arith, All,
  Bool-cases, inl, inr,
}
use network_lab.Lab1.Frame.{of_bytes}
use network_lab.Lab1.Frame.Seal.{fcs_matches}
use network_lab.Lab2.Channel.Flight.{Flight}
use network_lab.Lab2.Arq.Genuine.{AckUpTo, ack-le}
use network_lab.Lab2.GoBackN.System.{sends}
use network_lab.Lab2.GoBackN.Sender.{Sender, slide, slide_to, acknowledges, on_ack, on_acks}
pub use network_lab.Lab2.Arq.Calls.{sends-append}
use network_lab.Lab2.Arq.Window.{slide_lem}

-- What a step leaves alone: all but the lower end of the window, the counters and the timer.
pub record Same (s t : Sender) : Type 0 where
  pub sn_same : t.sn ≡ s.sn
  pub sw_same : t.sw ≡ s.sw
  pub store_same : t.frame_store ≡ s.frame_store
  pub phase_same : t.phase ≡ s.phase
  pub offset_same : t.offset ≡ s.offset

pub Same-refl : (s : Sender) → Same s s
Same-refl s = record {
  sn_same = refl;
  sw_same = refl;
  store_same = refl;
  phase_same = refl;
  offset_same = refl;
}

pub Same-trans : {s t u : Sender} → Same s t → Same t u → Same s u
Same-trans p q = record {
  sn_same = q.sn_same ∙ p.sn_same;
  sw_same = q.sw_same ∙ p.sw_same;
  store_same = q.store_same ∙ p.store_same;
  phase_same = q.phase_same ∙ p.phase_same;
  offset_same = q.offset_same ∙ p.offset_same;
}

pub acknowledges_lem :
    (s : Sender) (b : List ℕ)
    → acknowledges s b ≡ true
    → (fcs_matches b ≡ true)
      × (s.sf < (of_bytes b).header.frame_seq)
      × ((of_bytes b).header.frame_seq ≤ s.sn)
unfolding acknowledges
acknowledges_lem s b h = ground arith

-- The window slides to the number of the acknowledgement.
pub sf-slide_to : (s : Sender) (a : ℕ) → s.sf < a → a < 2 ^ 16 → (slide_to a s).0.sf ≡ a
unfolding slide_to
sf-slide_to s a h k = ground (arith, slide_lem (a - s.sf) s.sf)

slide_to-Same : (s : Sender) (a : ℕ) → Same s (slide_to a s).0 × (sends (slide_to a s).1 ≡ [])
unfolding slide_to sends
slide_to-Same s a = elim (Bool-cases (slide (a - s.sf) s.sf == s.sn)) [
  | inl e ↦ rw e (
    record {
      sn_same = refl;
      sw_same = refl;
      store_same = refl;
      phase_same = refl;
      offset_same = refl;
    },
    refl,
  )
  | inr e ↦ rw e (
    record {
      sn_same = refl;
      sw_same = refl;
      store_same = refl;
      phase_same = refl;
      offset_same = refl;
    },
    refl,
  )
]

on_ack-Same : (s : Sender) (b : List ℕ) → Same s (on_ack s b).0 × (sends (on_ack s b).1 ≡ [])
unfolding on_ack
on_ack-Same s b = elim (Bool-cases (acknowledges s b)) [
  | inl e ↦ rw e (slide_to-Same s (of_bytes b).header.frame_seq)
  | inr e ↦ rw e (Same-refl s, unfold sends in refl)
]

pub on_acks-Same :
    (s : Sender) (bs : List (List ℕ)) → Same s (on_acks s bs).0 × (sends (on_acks s bs).1 ≡ [])
unfolding on_acks
on_acks-Same s [] = (Same-refl s, unfold sends in refl)
on_acks-Same s (b ∷ bs) =
    let (p, e) = on_ack-Same s b in
    let (q, e') = on_acks-Same (on_ack s b).0 bs in
    (Same-trans p q, sends-append (on_ack s b).1 (on_acks (on_ack s b).0 bs).1 ∙ ap₂ ◌++◌ e e')

-- Acknowledgements of what the receiver has do not take the window past it.
module _ (n : ℕ) (small : n < 2 ^ 16) where
  on_ack-behind :
      (s : Sender) (b : List ℕ) → s.sf ≤ n → Flight (AckUpTo n) b → (on_ack s b).0.sf ≤ n
  unfolding on_ack
  on_ack-behind s b h fl = elim (Bool-cases (acknowledges s b)) [
    | inl e ↦
        let (ok, above, _) = acknowledges_lem s b e in
        let le = ack-le n small fl ok in
        rw (e, sf-slide_to s (of_bytes b).header.frame_seq above (omega arith)) le
    | inr e ↦ rw e h
  ]

  pub on_acks-behind :
      (s : Sender) (bs : List (List ℕ))
      → s.sf ≤ n
      → All (Flight (AckUpTo n)) bs
      → (on_acks s bs).0.sf ≤ n
  unfolding on_acks
  on_acks-behind s [] h fl = h
  on_acks-behind s (b ∷ bs) h fl = on_acks-behind (on_ack s b).0 bs (on_ack-behind s b h fl.0) fl.1
