-- ===== src/Bits/Digits.antt =====
-- The lowest binary digit of `^`, `|` and `&`, from the definition that the native operations stand for.
use Prim.Native.Nat.{min, max, differ, digits, bit_and-bitwise, bit_or-bitwise, bit_xor-bitwise}
use network_lab.Prelude.{
  ℕ, zero, suc, ◌+◌, ◌-◌, ◌*◌, ◌/◌, ◌%◌, ◌^◌, ◌≤◌, ◌<◌, bit_and, bit_or, bit_xor, ◌≡◌, refl, ap,
  arith,
}

-- `rest` of the second number when the first has run out of digits, and `join` of two digits.
module _ (rest : ℕ → ℕ) (join : ℕ → ℕ → ℕ) where
  abbrev run : ℕ → ℕ → ℕ → ℕ
  run fuel x y = digits rest join fuel x y

  -- Once the fuel is as large as the first number, one more unit is not used.
  spare_unit : (fuel x y : ℕ) → x ≤ fuel → run (suc fuel) x y ≡ run fuel x y
  spare_unit zero zero y le = refl
  spare_unit zero (suc x) y le = absurd (omega arith)
  spare_unit (suc fuel) zero y le = refl
  spare_unit (suc fuel) (suc x) y le =
      omega (arith, spare_unit fuel (suc x / 2) (y / 2) (omega arith))

  spare : (excess fuel x y : ℕ) → fuel ≡ excess + x → run fuel x y ≡ run x x y
  spare zero fuel x y e = let same : fuel ≡ x = omega arith in ap (λ (n : ℕ). run n x y) same
  spare (suc excess) zero x y e = absurd (omega arith)
  spare (suc excess) (suc fuel) x y e =
      omega (arith, spare_unit fuel x y (omega arith), spare excess fuel x y (omega arith))

  lowest_digit :
      (x y : ℕ)
      → run (suc x) (suc x) y ≡ 2 * run (suc x / 2) (suc x / 2) (y / 2) + join (suc x % 2) (y % 2)
  lowest_digit x y = omega (arith, spare (x - suc x / 2) x (suc x / 2) (y / 2) (omega arith))

pub bit_xor-halves : (x y : ℕ) → bit_xor x y ≡ 2 * bit_xor (x / 2) (y / 2) + differ (x % 2) (y % 2)
bit_xor-halves zero y = simp bit_xor-bitwise (omega arith)
bit_xor-halves (suc x) y = simp bit_xor-bitwise (lowest_digit (λ d. d) differ x y)

pub bit_or-halves : (x y : ℕ) → bit_or x y ≡ 2 * bit_or (x / 2) (y / 2) + max (x % 2) (y % 2)
bit_or-halves zero y = simp bit_or-bitwise (omega arith)
bit_or-halves (suc x) y = simp bit_or-bitwise (lowest_digit (λ d. d) max x y)

pub bit_and-halves : (x y : ℕ) → bit_and x y ≡ 2 * bit_and (x / 2) (y / 2) + min (x % 2) (y % 2)
bit_and-halves zero y = simp bit_and-bitwise (omega arith)
bit_and-halves (suc x) y = simp bit_and-bitwise (lowest_digit (λ d. 0) min x y)

-- Two digits differ where their sum is odd.
differ-add : (a b : ℕ) → a < 2 → b < 2 → differ a b ≡ (a + b) % 2
differ-add zero zero h k = omega arith
differ-add zero (suc zero) h k = omega arith
differ-add (suc zero) zero h k = omega arith
differ-add (suc zero) (suc zero) h k = omega arith
differ-add zero (suc (suc b)) h k = absurd (omega arith)
differ-add (suc zero) (suc (suc b)) h k = absurd (omega arith)
differ-add (suc (suc a)) b h k = absurd (omega arith)

pub bit_xor-step : (x y : ℕ) → bit_xor x y ≡ 2 * bit_xor (x / 2) (y / 2) + (x + y) % 2
bit_xor-step x y =
    omega (arith, bit_xor-halves x y, differ-add (x % 2) (y % 2) (omega arith) (omega arith))

-- `^` stays inside a width.
pub bit_xor-lt : (w x y : ℕ) → x < 2 ^ w → y < 2 ^ w → bit_xor x y < 2 ^ w
bit_xor-lt zero x y h k =
    let x_none : x ≡ 0 = omega arith in
    let y_none : y ≡ 0 = omega arith in rw (x_none, y_none) (omega arith)
bit_xor-lt (suc w) x y h k =
    omega (arith, bit_xor-step x y, bit_xor-lt w (x / 2) (y / 2) (omega arith) (omega arith))
