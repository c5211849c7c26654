-- ===== src/Lab1/Checksum/Sum.antt =====
-- What the checksum adds up: the sum of the 16-bit words, reduced by end-around carry.
use network_lab.Prelude.{
  ℕ, zero, suc, ◌+◌, ◌-◌, ◌*◌, ◌/◌, ◌%◌, ◌^◌, ◌≤◌, ◌<◌, ◌≡◌, some, List, [], ◌∷◌, ◌==◌,
  if◌then◌else◌, arith, length, ◌∙◌, ap,
}
use network_lab.Bits.{bit_or_fields, bit_and_mask}
use network_lab.Lab1.Checksum.{carry_loop, carry_fuel, word_of, sum_loop, ones_comp_sum}
use network_lab.Lab1.Checksum.{checksum16_compute, checksum16_verify}

-- The one's complement reading of a total: zero only for zero, otherwise in 1 .. 65535.
abbrev pub ones : ℕ → ℕ
ones t = if t == 0 then 0 else (t - 1) % 65535 + 1

-- The words of `len` bytes, the last of them completed by the byte behind when `len` is odd.
abbrev pub total : List ℕ → ℕ → ℕ
total buf zero = 0
total [] (suc n) = 0
total (hi ∷ []) (suc n) = 0
total (hi ∷ lo ∷ buf) (suc zero) = hi * 256 + lo
total (hi ∷ lo ∷ buf) (suc (suc n)) = hi * 256 + lo + total buf n

abbrev pub IsBytes : List ℕ → Type 0
IsBytes [] = Unit {0}
IsBytes (x ∷ xs) = (x < 256) × IsBytes xs

pub carry_loop-ones : (s : ℕ) → s < 2 ^ 32 → carry_loop carry_fuel s ≡ some (ones s)
unfolding carry_loop
carry_loop-ones s h = ground (arith, bit_and_mask 16 s, bit_and_mask 16 (s % 65536 + s / 65536))

pub word_of_lem : (hi lo : ℕ) → hi < 256 → lo < 256 → word_of hi lo ≡ hi * 256 + lo
unfolding word_of
word_of_lem hi lo p q = omega (arith, bit_or_fields 8 hi lo (omega arith))

-- Reducing early or late makes no difference.
pub ones-add : (t w : ℕ) → ones (ones t + w) ≡ ones (t + w)
ones-add t w = ground arith

-- One round of the loop adds a word to the total.
round-ones :
    (t hi lo : ℕ)
    → hi < 256
    → lo < 256
    → carry_loop carry_fuel ((ones t + word_of hi lo) % 2 ^ 32) ≡ some (ones (t + (hi * 256 + lo)))
round-ones t hi lo p q =
    rw (word_of_lem hi lo p q, small, carry_loop-ones _ below, ones-add t (hi * 256 + lo))
  where
    below : ones t + (hi * 256 + lo) < 2 ^ 32
    below = ground arith

    small : (ones t + (hi * 256 + lo)) % 2 ^ 32 ≡ ones t + (hi * 256 + lo)
    small = omega (arith, below)

sum_loop-ones :
    (buf : List ℕ) (len t : ℕ)
    → IsBytes buf
    → len + len % 2 ≤ length buf
    → sum_loop buf len (ones t) ≡ some (ones (t + total buf len))
unfolding sum_loop
sum_loop-ones buf zero t b h = ground arith
sum_loop-ones [] (suc n) t b h = absurd (omega arith)
sum_loop-ones (hi ∷ []) (suc n) t b h = absurd (omega arith)
sum_loop-ones (hi ∷ lo ∷ buf) (suc zero) t b h = round-ones t hi lo b.0 b.1.0
sum_loop-ones (hi ∷ lo ∷ buf) (suc (suc n)) t b h = rw (round-ones t hi lo b.0 b.1.0) (
    sum_loop-ones buf n (t + (hi * 256 + lo)) b.1.1 (omega arith)
    ∙ ap (λ k. some (ones k)) (omega arith))

-- On a buffer of bytes that reaches to the end of the last word, `ones_comp_sum` ends within its fuel
-- and gives the sum of the words reduced to 1 .. 65535, or 0 when that sum is 0.
pub ones_comp_sum-ones :
    (buf : List ℕ) (len : ℕ)
    → IsBytes buf
    → len + len % 2 ≤ length buf
    → ones_comp_sum buf len ≡ some (ones (total buf len))
unfolding ones_comp_sum
ones_comp_sum-ones buf len b h = rw (sum_loop-ones buf len 0 b h) (ground arith)

pub compute-ones :
    (buf : List ℕ) (len : ℕ)
    → IsBytes buf
    → len + len % 2 ≤ length buf
    → checksum16_compute buf len ≡ some (65535 - ones (total buf len))
unfolding checksum16_compute
compute-ones buf len b h =
    rw (ones_comp_sum-ones buf len b h)
      (ground (arith, bit_and_mask 16 (2 ^ 32 - 1 - ones (total buf len))))

pub verify-ones :
    (buf : List ℕ) (len received : ℕ)
    → IsBytes buf
    → len + len % 2 ≤ length buf
    → received < 2 ^ 16
    → checksum16_verify buf len received ≡ some (ones (total buf len + received) == 65535)
unfolding checksum16_verify
verify-ones buf len received b h r = rw (
  ones_comp_sum-ones buf len b h,
  small,
  carry_loop-ones _ below,
  ones-add (total buf len) received,
)
  where
    below : ones (total buf len) + received < 2 ^ 32
    below = ground arith

    small : (ones (total buf len) + received) % 2 ^ 32 ≡ ones (total buf len) + received
    small = omega (arith, below)
