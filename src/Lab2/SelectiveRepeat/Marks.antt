-- ===== src/Lab2/SelectiveRepeat/Marks.antt =====
-- lab2/arq/receiver.c, Selective Repeat: the delivery loop ends by its own test.
use network_lab.Prelude.{
  ℕ, zero, suc, ◌+◌, ◌%◌, ◌<◌, ◌≡◌, refl, ap, ◌∙◌, inl, inr, Bool, false, ◌==◌, arith, u16,
  Bool-cases,
}
use native.Mathlib.Decide.{ℕ_discrete}
use network_lab.Lab2.SelectiveRepeat.Receiver.{Receiver, deliver, deliver_marked}

-- The slots from `from` on that the first turns of the loop have cleared.
abbrev Cleared : ℕ → ℕ → Receiver → Type 0
Cleared from turns r = (j : ℕ) → j < turns → r.marked ((from + j) % 256) ≡ false

deliver-Cleared :
    (from turns : ℕ) (r : Receiver)
    → r.rn % 256 ≡ (from + turns) % 256
    → Cleared from turns r
    → Cleared from (turns + 1) (deliver r)
unfolding deliver
deliver-Cleared from turns r e c j h = elim (Bool-cases ((from + j) % 256 == r.rn % 256)) [
  | inl same ↦ rw same refl
  | inr other ↦ rw other (
      c j (elim (ℕ_discrete j turns) [
        | yes last ↦ absurd (ground (arith, ap (λ k. (from + k) % 256) last))
        | no before ↦ omega arith
      ]))
]

pub rn-deliver : (r : Receiver) → (deliver r).rn ≡ u16 (r.rn + 1)
unfolding deliver
rn-deliver r = refl

all_turns :
    (fuel turns from : ℕ) (r : Receiver) (eot : Bool)
    → turns + fuel ≡ 256
    → r.rn % 256 ≡ (from + turns) % 256
    → Cleared from turns r
    → (deliver_marked fuel r eot).0.marked ((deliver_marked fuel r eot).0.rn % 256) ≡ false
unfolding deliver_marked
all_turns zero turns from r eot e at c =
    let round : r.rn % 256 ≡ (from + 0) % 256 = omega arith in ap r.marked round ∙ c 0 (omega arith)
all_turns (suc fuel) turns from r eot e at c = elim (Bool-cases (r.marked (r.rn % 256))) [
  | inr stop ↦ rw stop stop
  | inl go ↦ rw go (
      all_turns fuel (turns + 1) from (deliver r) _ (omega arith) (omega (arith, rn-deliver r))
        (deliver-Cleared from turns r at c))
]

-- With 256 turns the loop ends at a slot that is not marked.
pub deliver_marked-stops :
    (r : Receiver) (eot : Bool)
    → (deliver_marked 256 r eot).0.marked ((deliver_marked 256 r eot).0.rn % 256) ≡ false
deliver_marked-stops r eot =
    all_turns 256 0 r.rn r eot refl (omega arith) (λ j h. absurd (omega arith))
