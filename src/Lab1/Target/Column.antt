-- ===== src/Lab1/Target/Column.antt =====
-- lab1/error_inject/targeted_inject.c: the columns of the words, and what a digit weighs.
use network_lab.Prelude.{
  ℕ, zero, suc, ◌+◌, ◌-◌, ◌*◌, ◌/◌, ◌%◌, ◌≤◌, ◌<◌, ◌≡◌, ◌≢◌, refl, sym, ap, ◌∙◌, ◌⊎◌, inl, inr,
  List, [], ◌∷◌, get_or, set, ltb, arith, Bool-cases,
}
use network_lab.Lab1.Checksum.Laws.{weight}
use network_lab.Lab1.Target.{byte_of, bit_in_byte, global_bit}

pub get_or-set_ne : (buf : List ℕ) (i j v : ℕ) → i ≢ j → get_or (set buf i v) j 0 ≡ get_or buf j 0
get_or-set_ne [] i j v ne = refl
get_or-set_ne (x ∷ buf) zero zero v ne = absurd (ne refl)
get_or-set_ne (x ∷ buf) zero (suc j) v ne = refl
get_or-set_ne (x ∷ buf) (suc i) zero v ne = refl
get_or-set_ne (x ∷ buf) (suc i) (suc j) v ne = get_or-set_ne buf i j v (λ e. ne (ap suc e))

weight-even : (w : ℕ) → weight (2 * w) ≡ 256
weight-even zero = refl
weight-even (suc w) = let e : 2 * suc w ≡ suc (suc (2 * w)) = omega arith in rw e (weight-even w)

weight-odd : (w : ℕ) → weight (2 * w + 1) ≡ 1
weight-odd zero = refl
weight-odd (suc w) =
    let e : 2 * suc w + 1 ≡ suc (suc (2 * w + 1)) = omega arith in rw e (weight-odd w)

-- The columns of two words have the same weight.
pub byte_of-weight : (w c : ℕ) → (weight (byte_of w c) ≡ 1) ⊎ (weight (byte_of w c) ≡ 256)
unfolding byte_of
byte_of-weight w c = elim (Bool-cases (ltb c 8)) [
  | inl low ↦ rw low (inl (weight-odd w))
  | inr high ↦ rw high (inr (weight-even w))
]

pub same_weight : (v w c : ℕ) → weight (byte_of v c) ≡ weight (byte_of w c)
unfolding byte_of
same_weight v w c = elim (Bool-cases (ltb c 8)) [
  | inl low ↦ rw low (weight-odd v ∙ sym (weight-odd w))
  | inr high ↦ rw high (weight-even v ∙ sym (weight-even w))
]

pub byte_of-ne : (v w c : ℕ) → v ≢ w → byte_of v c ≢ byte_of w c
unfolding byte_of
byte_of-ne v w c ne = ground arith

pub byte_of-lt : (n w c : ℕ) → w < n / 2 → byte_of w c < n
unfolding byte_of
byte_of-lt n w c h = ground arith

-- The number of a bit in the buffer, taken apart again.
pub global_bit-parts :
    (w c : ℕ) → c < 16 → (global_bit w c / 8 ≡ byte_of w c) × (global_bit w c % 8 ≡ bit_in_byte c)
unfolding global_bit bit_in_byte
global_bit-parts w c h = ground arith

pub bit_in_byte-lt : (c : ℕ) → c < 16 → bit_in_byte c < 8
unfolding bit_in_byte
bit_in_byte-lt c h = ground arith

-- Adding a digit's value or taking it away, under a weight.
pub weighed :
    (b t t' x v p : ℕ) {w : ℕ}
    → b ≤ 1
    → (w ≡ 1) ⊎ (w ≡ 256)
    → t' + x * w ≡ t + v * w
    → v + b * p ≡ x + (1 - b) * p
    → t' + b * (p * w) ≡ t + (1 - b) * (p * w)
weighed zero t t' x v p le (inl e) = rw e (λ h k. omega (arith, h, k))
weighed zero t t' x v p le (inr e) = rw e (λ h k. omega (arith, h, k))
weighed (suc zero) t t' x v p le (inl e) = rw e (λ h k. omega (arith, h, k))
weighed (suc zero) t t' x v p le (inr e) = rw e (λ h k. omega (arith, h, k))
weighed (suc (suc b)) t t' x v p le e = absurd (omega arith)

-- One digit added and one taken away.
pub cancelled :
    (b b' d t t' t'' : ℕ)
    → b ≤ 1
    → b' ≤ 1
    → b ≢ b'
    → t' + b * d ≡ t + (1 - b) * d
    → t'' + b' * d ≡ t' + (1 - b') * d
    → t'' ≡ t
cancelled zero zero d t t' t'' le le' ne e e' = absurd (ne refl)
cancelled zero (suc zero) d t t' t'' le le' ne e e' = omega (arith, e, e')
cancelled (suc zero) zero d t t' t'' le le' ne e e' = omega (arith, e, e')
cancelled (suc zero) (suc zero) d t t' t'' le le' ne e e' = absurd (ne refl)
cancelled zero (suc (suc b')) d t t' t'' le le' ne e e' = absurd (omega arith)
cancelled (suc zero) (suc (suc b')) d t t' t'' le le' ne e e' = absurd (omega arith)
cancelled (suc (suc b)) b' d t t' t'' le le' ne e e' = absurd (omega arith)
