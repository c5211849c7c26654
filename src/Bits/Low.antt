-- ===== src/Bits/Low.antt =====
-- The low digits of a number: the digit at a width, and a shift.
use native.Mathlib.Nat.{pow-suc, one-le-pow}
use network_lab.Prelude.{ℕ, zero, suc, ◌+◌, ◌-◌, ◌*◌, ◌/◌, ◌%◌, ◌^◌, ◌≤◌, bit_and, ◌≡◌, ap, arith}
use network_lab.Bits.Digits.{bit_and-halves}
use network_lab.Bits.Fields.{bit_and_mask}

-- One more digit.
pub mod_two_pow-suc : (k x : ℕ) → x % 2 ^ suc k ≡ 2 * ((x / 2) % 2 ^ k) + x % 2
mod_two_pow-suc k x =
    let ones_left : (2 ^ suc k - 1) / 2 ≡ 2 ^ k - 1 = omega (arith, pow-suc 2 k, one-le-pow k 2) in
    omega (
      arith,
      bit_and_mask (suc k) x,
      bit_and_mask k (x / 2),
      bit_and-halves x (2 ^ suc k - 1),
      ap (bit_and (x / 2)) ones_left,
      pow-suc 2 k,
      one-le-pow k 2,
    )

-- A digit that is not set does not count.
pub bit_and-unset : (k x : ℕ) → bit_and x (2 ^ k) ≡ 0 → x % 2 ^ suc k ≡ x % 2 ^ k
bit_and-unset zero x unset = omega (arith, bit_and_mask 1 x)
bit_and-unset (suc k) x unset =
    let half : 2 ^ suc k / 2 ≡ 2 ^ k = omega (arith, pow-suc 2 k) in
    omega (
      arith,
      mod_two_pow-suc (suc k) x,
      mod_two_pow-suc k x,
      bit_and-unset k (x / 2)
          (omega (arith, bit_and-halves x (2 ^ suc k), ap (bit_and (x / 2)) half)),
    )

-- Doubling moves the digits up.
pub mod_two_pow-double : (k x : ℕ) → (x * 2) % 2 ^ suc k ≡ 2 * (x % 2 ^ k)
mod_two_pow-double k x =
    let halved : (x * 2) / 2 ≡ x = omega arith in
    omega (arith, mod_two_pow-suc k (x * 2), ap (λ t. t % 2 ^ k) halved)

-- A narrower width after a wider one.
pub mod-mod_two_pow : (k l x : ℕ) → k ≤ l → x % 2 ^ l % 2 ^ k ≡ x % 2 ^ k
mod-mod_two_pow zero l x h = omega arith
mod-mod_two_pow (suc k) zero x h = absurd (omega arith)
mod-mod_two_pow (suc k) (suc l) x h =
    let halved : (x % 2 ^ suc l) / 2 ≡ (x / 2) % 2 ^ l = omega (arith, mod_two_pow-suc l x) in
    omega (
      arith,
      mod_two_pow-suc k (x % 2 ^ suc l),
      mod_two_pow-suc l x,
      mod_two_pow-suc k x,
      ap (λ t. t % 2 ^ k) halved,
      mod-mod_two_pow k l (x / 2) (omega arith),
    )
