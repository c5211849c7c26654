-- ===== src/Bits/Fields.antt =====
-- `|` of disjoint fields is a sum, and `&` with a mask of low ones is a remainder.
use native.Mathlib.Nat.{pow-suc, one-le-pow}
use network_lab.Prelude.{
  ℕ, zero, suc, ◌+◌, ◌-◌, ◌*◌, ◌/◌, ◌%◌, ◌^◌, ◌≤◌, ◌<◌, bit_and, bit_or, ◌≡◌, refl, ap, arith,
}
use network_lab.Bits.Digits.{bit_or-halves, bit_and-halves}

-- Fuel stands for strong induction: `a / 2` is smaller.
bit_or-zero : (n a : ℕ) → a ≤ n → bit_or a 0 ≡ a
bit_or-zero n zero h = refl
bit_or-zero zero (suc a) h = absurd (omega arith)
bit_or-zero (suc n) (suc a) h =
    omega (arith, bit_or-halves (suc a) 0, bit_or-zero n (suc a / 2) (omega arith))

bit_and-zero : (n a : ℕ) → a ≤ n → bit_and a 0 ≡ 0
bit_and-zero n zero h = refl
bit_and-zero zero (suc a) h = absurd (omega arith)
bit_and-zero (suc n) (suc a) h =
    omega (arith, bit_and-halves (suc a) 0, bit_and-zero n (suc a / 2) (omega arith))

-- High part shifted by `k`, low part below `2 ^ k`.
pub bit_or_fields : (k hi lo : ℕ) → lo < 2 ^ k → bit_or (hi * 2 ^ k) lo ≡ hi * 2 ^ k + lo
bit_or_fields zero hi lo h = ground (arith, bit_or-zero hi hi (omega arith))
bit_or_fields (suc k) hi lo h = ground (
  arith,
  bit_or-halves (hi * 2 ^ suc k) lo,
  pow-suc 2 k,
  ap (λ (t : ℕ). hi * t) (pow-suc 2 k),
  bit_or_fields k hi (lo / 2) (omega (arith, pow-suc 2 k)),
)

bit_and-low : (k hi lo : ℕ) → lo < 2 ^ k → bit_and (hi * 2 ^ k + lo) (2 ^ k - 1) ≡ lo
bit_and-low zero hi lo h = omega (arith, bit_and-zero (hi * 1 + lo) (hi * 1 + lo) (omega arith))
bit_and-low (suc k) hi lo h = ground (
  arith,
  bit_and-halves (hi * 2 ^ suc k + lo) (2 ^ suc k - 1),
  pow-suc 2 k,
  one-le-pow k 2,
  ap (λ (t : ℕ). hi * t) (pow-suc 2 k),
  bit_and-low k hi (lo / 2) (omega (arith, pow-suc 2 k)),
)

-- `&` with the mask of `k` ones.
pub bit_and_mask : (k a : ℕ) → bit_and a (2 ^ k - 1) ≡ a % 2 ^ k
bit_and_mask k a = ground (arith, one-le-pow k 2, bit_and-low k (a / 2 ^ k) (a % 2 ^ k))
