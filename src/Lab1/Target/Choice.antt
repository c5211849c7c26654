-- ===== src/Lab1/Target/Choice.antt =====
-- lab1/error_inject/targeted_inject.c: what the loops choose.
use network_lab.Prelude.{
  ℕ, ◌/◌, ◌%◌, ◌<◌, ◌≤◌, ltb, ◌≡◌, ◌≢◌, refl, ap, ◌∙◌, inl, inr, false, some, List, [], ◌∷◌, ◌==◌,
  arith, Bool-cases, if◌then◌else◌,
}
use mathlib.Core.Path.{subst}
use native.Mathlib.Nat.{mod-lt, mod-eq_of_lt}
use mathlib.Core.Option.{none-ne-some, some_inj}
use network_lab.Lab1.Inject.{flip_bit}
use network_lab.Lab1.Target.{
  bit_at, global_bit, Choosing, first_word, second_word, column, choose, inject_compensating_error,
}

-- Two words and a column in which they differ.
abbrev pub Chosen : ℕ → List ℕ → ℕ × ℕ × ℕ → Type 0
Chosen word_count buf (w1, w2, c) =
    (w1 < word_count)
    × (w2 < word_count)
    × (w1 ≢ w2)
    × (c < 16)
    × (bit_at buf w1 c ≢ bit_at buf w2 c)

abbrev SoFar : ℕ → Choosing → Type 0
SoFar word_count first_word = Unit {0}
SoFar word_count (second_word w1) = w1 < word_count
SoFar word_count (column w1 w2) = (w1 < word_count) × (w2 < word_count) × (w1 ≢ w2)

pub choose-Chosen :
    (word_count : ℕ) (buf : List ℕ) (at : Choosing) (rands : List ℕ) {picked : ℕ × ℕ × ℕ}
    → 0 < word_count
    → SoFar word_count at
    → choose word_count buf at rands ≡ some picked
    → Chosen word_count buf picked
unfolding choose
choose-Chosen n buf at [] {picked} pos so e = absurd (none-ne-some picked e)
choose-Chosen n buf first_word (rand ∷ rands) pos so e =
    choose-Chosen n buf (second_word (rand % n)) rands pos (mod-lt rand pos) e
choose-Chosen n buf (second_word w1) (rand ∷ rands) pos so e =
    elim (Bool-cases ((rand % n) == w1)) [
      | inl same ↦ choose-Chosen n buf (second_word w1) rands pos so (rw same at e)
      | inr other ↦
          choose-Chosen n buf (column w1 (rand % n)) rands pos (so, mod-lt rand pos, ground arith)
            (rw other at e)
    ]
choose-Chosen n buf (column w1 w2) (rand ∷ rands) pos so e =
    elim (Bool-cases (bit_at buf w1 (rand % 16) == bit_at buf w2 (rand % 16))) [
      | inl same ↦ choose-Chosen n buf first_word rands pos tt (rw same at e)
      | inr other ↦
          subst (Chosen n buf) (some_inj.0 (rw other at e))
            (so.0, so.1, so.2, omega arith, ground arith)
    ]

choose-at_once :
    (n : ℕ) (buf : List ℕ) (w1 w2 c : ℕ) (rands : List ℕ)
    → Chosen n buf (w1, w2, c)
    → choose n buf first_word (w1 ∷ w2 ∷ c ∷ rands) ≡ some (w1, w2, c)
unfolding choose
choose-at_once n buf w1 w2 c rands (lt, lt', ne, small, differ) =
    ap (λ k. choose n buf (second_word k) (w2 ∷ c ∷ rands)) (mod-eq_of_lt lt)
    ∙ ap (λ k. choose n buf (if k == w1 then second_word w1 else column w1 k) (c ∷ rands))
        (mod-eq_of_lt lt')
    ∙ ap (λ t. choose n buf (if t then second_word w1 else column w1 w2) (c ∷ rands)) other
    ∙ last
  where
    other : (w2 == w1) ≡ false
    other = ground arith

    last : choose n buf (column w1 w2) (c ∷ rands) ≡ some (w1, w2, c)
    last =
        let same : c % 16 ≡ c = omega arith in
        let unlike : (bit_at buf w1 c == bit_at buf w2 c) ≡ false = ground arith in
        rw (same, unlike) refl

-- With such values the first choice is final.
pub inject_compensating_error-at_once :
    (buf : List ℕ) (len w1 w2 c : ℕ) (rands : List ℕ)
    → 4 ≤ len
    → Chosen (len / 2) buf (w1, w2, c)
    → inject_compensating_error (w1 ∷ w2 ∷ c ∷ rands) buf len
      ≡ some (flip_bit (flip_bit buf len (global_bit w1 c)) len (global_bit w2 c))
unfolding inject_compensating_error
inject_compensating_error-at_once buf len w1 w2 c rands enough chosen =
    let enters : ltb (len / 2) 2 ≡ false = ground arith in
    rw (enters, choose-at_once (len / 2) buf w1 w2 c rands chosen) refl
