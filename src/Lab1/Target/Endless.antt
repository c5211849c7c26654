-- ===== src/Lab1/Target/Endless.antt =====
-- lab1/error_inject/targeted_inject.c: a buffer in which the loops find nothing to flip.
use network_lab.Prelude.{
  ℕ, ◌+◌, ◌*◌, ◌/◌, ◌%◌, ◌≤◌, ◌<◌, ◌≡◌, refl, inl, inr, true, false, none, List, [], ◌∷◌, ◌==◌,
  get_or, ltb, arith, Bool-cases, ==_iff,
}
use native.Mathlib.Nat.{mod-lt}
use network_lab.Lab1.Target.{
  byte_of, bit_at, Choosing, first_word, second_word, column, choose, inject_compensating_error,
}

module _ (word_count : ℕ) (buf : List ℕ) (hi lo : ℕ) (pos : 0 < word_count)
    (alike : (w : ℕ)
      → w < word_count
      → (get_or buf (2 * w) 0 ≡ hi) × (get_or buf (2 * w + 1) 0 ≡ lo)) where
  bit_at-alike :
      (v w c : ℕ) → v < word_count → w < word_count → (bit_at buf v c == bit_at buf w c) ≡ true
  unfolding bit_at byte_of
  bit_at-alike v w c h k = elim (Bool-cases (ltb c 8)) [
    | inl low ↦ rw (low, (alike v h).1, (alike w k).1) ((==_iff _ _).1 refl)
    | inr high ↦ rw (high, (alike v h).0, (alike w k).0) ((==_iff _ _).1 refl)
  ]

  abbrev InRange : Choosing → Type 0
  InRange first_word = Unit {0}
  InRange (second_word w1) = w1 < word_count
  InRange (column w1 w2) = (w1 < word_count) × (w2 < word_count)

  choose-none :
      (at : Choosing) (rands : List ℕ) → InRange at → choose word_count buf at rands ≡ none
  unfolding choose
  choose-none at [] in_range = refl
  choose-none first_word (rand ∷ rands) in_range =
      choose-none (second_word (rand % word_count)) rands (mod-lt rand pos)
  choose-none (second_word w1) (rand ∷ rands) in_range =
      elim (Bool-cases ((rand % word_count) == w1)) [
        | inl same ↦ rw same (choose-none (second_word w1) rands in_range)
        | inr other ↦
            rw other (choose-none (column w1 (rand % word_count)) rands (in_range, mod-lt rand pos))
      ]
  choose-none (column w1 w2) (rand ∷ rands) in_range =
      rw (bit_at-alike w1 w2 (rand % 16) in_range.0 in_range.1) (choose-none first_word rands tt)

-- In a buffer with two complete words or more, all of them alike, `inject_compensating_error` never
-- returns, whatever `rand()` gives.
pub inject_compensating_error-endless :
    (buf : List ℕ) (len hi lo : ℕ) (rands : List ℕ)
    → 4 ≤ len
    → ((w : ℕ) → w < len / 2 → (get_or buf (2 * w) 0 ≡ hi) × (get_or buf (2 * w + 1) 0 ≡ lo))
    → inject_compensating_error rands buf len ≡ none
unfolding inject_compensating_error
inject_compensating_error-endless buf len hi lo rands enough alike =
    let enters : ltb (len / 2) 2 ≡ false = ground arith in
    rw (enters, choose-none (len / 2) buf hi lo (omega arith) alike first_word rands tt) refl
