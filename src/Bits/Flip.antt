-- ===== src/Bits/Flip.antt =====
-- `^` with a power of two changes a byte into another byte.
use network_lab.Prelude.{
  ℕ, ◌+◌, ◌-◌, ◌*◌, ◌/◌, ◌^◌, ◌<◌, ◌≤◌, bit_and, bit_xor, leb, ◌≡◌, ◌≢◌, refl, Bool, true, ◌&&◌,
  arith, run_table, run_table-entry, ◌==◌, ltb, not,
}

-- The flipped byte differs, is a byte, and comes back when it is flipped again.
abbrev flips : ℕ → ℕ → Bool
flips k x = let y = bit_xor x (2 ^ k) in not (y == x) && (ltb y 256 && (bit_xor y (2 ^ k) == x))

flips_table : run_table (λ k. run_table (flips k) 256) 8 ≡ true
unfolding run_table
flips_table = refl

pub bit_xor-two_pow :
    (k x : ℕ)
    → k < 8
    → x < 256
    → (bit_xor x (2 ^ k) ≢ x)
      × (bit_xor x (2 ^ k) < 256)
      × (bit_xor (bit_xor x (2 ^ k)) (2 ^ k) ≡ x)
bit_xor-two_pow k x hk hx =
    let row : run_table (flips k) 256 ≡ true =
      run_table-entry (λ j. run_table (flips j) 256) 8 hk flips_table in
    ground (arith, run_table-entry (flips k) 256 hx row)

-- Digit `k` of a byte, as `(x >> k) & 1`, and what a flip of it adds or takes away.
abbrev pub digit : ℕ → ℕ → ℕ
digit k x = bit_and (x / 2 ^ k) 1

abbrev moves : ℕ → ℕ → Bool
moves k x = let b = digit k x in leb b 1 && ((bit_xor x (2 ^ k) + b * 2 ^ k) == x + (1 - b) * 2 ^ k)

moves_table : run_table (λ k. run_table (moves k) 256) 8 ≡ true
unfolding run_table
moves_table = refl

pub bit_xor-digit :
    (k x : ℕ)
    → k < 8
    → x < 256
    → (digit k x ≤ 1) × (bit_xor x (2 ^ k) + digit k x * 2 ^ k ≡ x + (1 - digit k x) * 2 ^ k)
bit_xor-digit k x hk hx =
    let row : run_table (moves k) 256 ≡ true =
      run_table-entry (λ j. run_table (moves j) 256) 8 hk moves_table in
    ground (arith, run_table-entry (moves k) 256 hx row)
