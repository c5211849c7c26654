-- ===== src/Lab2/Arq/Progress.antt =====
-- How far a window sender is, and what its slots hold.
use network_lab.Prelude.{
  ℕ, ◌+◌, ◌*◌, ◌%◌, ◌≤◌, ◌<◌, ◌≡◌, refl, sym, ap, ◌∙◌, ◌⊎◌, inl, inr, List, ◌==◌, length, arith,
  Bool-cases, ==_iff,
}
use mathlib.Core.Bool.{false≢true}
use native.Mathlib.Decide.{ℕ_discrete}
use network_lab.Lab1.Checksum.Sum.{IsBytes}
use network_lab.Lab1.Frame.{Frame, to_bytes}
use network_lab.Lab2.Arq.{chunk_len}
use network_lab.Lab2.Arq.Window.{Phase, sending, draining, finished, store}
use network_lab.Lab2.Arq.Genuine.{Genuine, Genuine-IsSealed}
use network_lab.Lab2.Channel.Flight.{Outgoing}

-- How far the transfer is, phase by phase; `n` is the number of frames that the receiver has.
abbrev pub Progress : List ℕ → ℕ → Phase → ℕ → ℕ → Type 0
Progress file n sending sn offset =
    ((offset ≡ 44 * sn) × (44 * sn < length file))
    ⊎ ((offset ≡ length file) × (length file ≤ 44 * sn) × (44 * sn < length file + 44))
Progress file n draining sn offset = (length file + 44 ≤ 44 * sn) × (44 * sn < length file + 88)
Progress file n finished sn offset = length file + 44 ≤ 44 * n

module _ (file : List ℕ) (bytes : IsBytes file) where
  pub outgoing : {f : Frame} → Genuine file f → Outgoing (Genuine file) (to_bytes f)
  outgoing {f} g = (f, g, Genuine-IsSealed file bytes f g, refl)

module _ (file : List ℕ) where
  -- The slot of a new frame holds it; every other slot is as it was.
  pub store-Genuine :
      (sw sn : ℕ) (frames : ℕ → Frame) (f : Frame)
      → Genuine file f
      → ((i : ℕ) → i < sn → Genuine file (frames (i % sw)))
      → (i : ℕ) → i < sn + 1
      → Genuine file (store frames (sn % sw) f (i % sw))
  store-Genuine sw sn frames f g old i h = elim (Bool-cases (i % sw == sn % sw)) [
    | inl e ↦ rw e g
    | inr e ↦ rw e (
        old i (elim (ℕ_discrete i sn) [
          | yes same ↦ absurd (false≢true (sym e ∙ (==_iff _ _).1 (ap (λ k. k % sw) same)))
          | no ne ↦ omega arith
        ]))
  ]

  -- The offset stays at the frame's place in the file, or comes to its end.
  pub Progress-suc :
      (n k offset sn' : ℕ)
      → offset ≡ 44 * k
      → 44 * k < length file
      → sn' ≡ k + 1
      → Progress file n sending sn' (offset + chunk_len file offset)
  unfolding chunk_len
  Progress-suc n k offset sn' e h e' = ground arith
