-- ===== src/Bits/Xor.antt =====
-- `^` on numbers of any width: a commutative group in which every number is its own inverse, over
-- which `&` with a mask distributes.
use Prim.Native.Nat.{bit_and-bitwise}
use native.Mathlib.Nat.{pow-suc}
use network_lab.Prelude.{
  ℕ, zero, suc, ◌+◌, ◌-◌, ◌*◌, ◌/◌, ◌%◌, ◌^◌, ◌≤◌, bit_and, bit_xor, ◌≡◌, refl, sym, ap, ap₂, ◌∙◌,
  ◌⊎◌, inl, inr, arith,
}
use network_lab.Bits.Digits.{bit_xor-step, bit_and-halves}
use network_lab.Bits.Fields.{bit_and_mask}

bit_xor-half : (x y : ℕ) → bit_xor x y / 2 ≡ bit_xor (x / 2) (y / 2)
bit_xor-half x y = omega (arith, bit_xor-step x y)

bit_and-half : (x y : ℕ) → bit_and x y / 2 ≡ bit_and (x / 2) (y / 2)
bit_and-half x y = omega (arith, bit_and-halves x y)

-- Fuel stands for strong induction: the halves are smaller.
comm_in : (n x y : ℕ) → x ≤ n → y ≤ n → bit_xor x y ≡ bit_xor y x
comm_in zero x y h k =
    let x_none : x ≡ 0 = omega arith in let y_none : y ≡ 0 = omega arith in rw (x_none, y_none) refl
comm_in (suc n) x y h k = omega (
  arith,
  bit_xor-step x y,
  bit_xor-step y x,
  comm_in n (x / 2) (y / 2) (omega arith) (omega arith),
)

assoc_in : (n x y z : ℕ) → x ≤ n → y ≤ n → z ≤ n → bit_xor (bit_xor x y) z ≡ bit_xor x (bit_xor y z)
assoc_in zero x y z h k l =
    let x_none : x ≡ 0 = omega arith in
    let y_none : y ≡ 0 = omega arith in
    let z_none : z ≡ 0 = omega arith in rw (x_none, y_none, z_none) refl
assoc_in (suc n) x y z h k l = omega (
  arith,
  bit_xor-step (bit_xor x y) z,
  bit_xor-step x (bit_xor y z),
  bit_xor-step x y,
  bit_xor-step y z,
  ap (λ t. bit_xor t (z / 2)) (bit_xor-half x y),
  ap (bit_xor (x / 2)) (bit_xor-half y z),
  assoc_in n (x / 2) (y / 2) (z / 2) (omega arith) (omega arith) (omega arith),
)

zero_in : (n x : ℕ) → x ≤ n → bit_xor x 0 ≡ x
zero_in zero x h = let x_none : x ≡ 0 = omega arith in rw x_none refl
zero_in (suc n) x h = omega (arith, bit_xor-step x 0, zero_in n (x / 2) (omega arith))

self_in : (n x : ℕ) → x ≤ n → bit_xor x x ≡ 0
self_in zero x h = let x_none : x ≡ 0 = omega arith in rw x_none refl
self_in (suc n) x h = omega (arith, bit_xor-step x x, self_in n (x / 2) (omega arith))

and_in :
    (n x y m : ℕ) → x ≤ n → y ≤ n → bit_and (bit_xor x y) m ≡ bit_xor (bit_and x m) (bit_and y m)
and_in zero x y m h k =
    let x_none : x ≡ 0 = omega arith in
    let y_none : y ≡ 0 = omega arith in
    let nothing : bit_and 0 m ≡ 0 = bit_and-bitwise 0 m in rw (x_none, y_none, nothing) refl
and_in (suc n) x y m h k = omega (
  arith,
  bit_and-halves (bit_xor x y) m,
  bit_xor-step (bit_and x m) (bit_and y m),
  bit_xor-step x y,
  bit_and-halves x m,
  bit_and-halves y m,
  ap (λ t. bit_and t (m / 2)) (bit_xor-half x y),
  ap₂ bit_xor (bit_and-half x m) (bit_and-half y m),
  and_in n (x / 2) (y / 2) (m / 2) (omega arith) (omega arith),
)

pub bit_xor_comm : (x y : ℕ) → bit_xor x y ≡ bit_xor y x
bit_xor_comm x y = comm_in (x + y) x y (omega arith) (omega arith)

pub bit_xor_assoc : (x y z : ℕ) → bit_xor (bit_xor x y) z ≡ bit_xor x (bit_xor y z)
bit_xor_assoc x y z = assoc_in (x + y + z) x y z (omega arith) (omega arith) (omega arith)

pub bit_xor-zero : (x : ℕ) → bit_xor x 0 ≡ x
bit_xor-zero x = zero_in x x (omega arith)

pub bit_xor_self : (x : ℕ) → bit_xor x x ≡ 0
bit_xor_self x = self_in x x (omega arith)

pub bit_and-bit_xor : (x y m : ℕ) → bit_and (bit_xor x y) m ≡ bit_xor (bit_and x m) (bit_and y m)
bit_and-bit_xor x y m = and_in (x + y) x y m (omega arith) (omega arith)

pub zero-bit_xor : (x : ℕ) → bit_xor 0 x ≡ x
zero-bit_xor x = bit_xor_comm 0 x ∙ bit_xor-zero x

-- Only 0 leaves a number as it is.
pub bit_xor-cancel : (x y : ℕ) → bit_xor x y ≡ x → y ≡ 0
bit_xor-cancel x y same =
    sym (zero-bit_xor y)
    ∙ ap (λ t. bit_xor t y) (sym (bit_xor_self x))
    ∙ bit_xor_assoc x x y
    ∙ ap (bit_xor x) same
    ∙ bit_xor_self x

-- The inner two of four change places.
pub bit_xor-swap :
    (a b c d : ℕ) → bit_xor (bit_xor a b) (bit_xor c d) ≡ bit_xor (bit_xor a c) (bit_xor b d)
bit_xor-swap a b c d =
    bit_xor_assoc a b (bit_xor c d)
    ∙ ap (bit_xor a)
        (sym (bit_xor_assoc b c d) ∙ ap (λ t. bit_xor t d) (bit_xor_comm b c) ∙ bit_xor_assoc c b d)
    ∙ sym (bit_xor_assoc a c (bit_xor b d))

-- Shifting and keeping the low bits distribute over `^`.
double-bit_xor : (x y : ℕ) → bit_xor x y * 2 ≡ bit_xor (x * 2) (y * 2)
double-bit_xor x y =
    let half_x : x * 2 / 2 ≡ x = omega arith in
    let half_y : y * 2 / 2 ≡ y = omega arith in
    omega (arith, bit_xor-step (x * 2) (y * 2), ap₂ bit_xor half_x half_y)

pub shift-bit_xor : (k x y : ℕ) → bit_xor x y * 2 ^ k ≡ bit_xor (x * 2 ^ k) (y * 2 ^ k)
shift-bit_xor zero x y =
    let one_x : x * 2 ^ 0 ≡ x = omega arith in
    let one_y : y * 2 ^ 0 ≡ y = omega arith in omega (arith, ap₂ bit_xor one_x one_y)
shift-bit_xor (suc k) x y =
    more (bit_xor x y)
    ∙ ap (λ t. t * 2) (shift-bit_xor k x y)
    ∙ double-bit_xor (x * 2 ^ k) (y * 2 ^ k)
    ∙ ap₂ bit_xor (sym (more x)) (sym (more y))
  where
    more : (t : ℕ) → t * 2 ^ suc k ≡ t * 2 ^ k * 2
    more t = omega (arith, ap (λ (p : ℕ). t * p) (pow-suc 2 k))

pub mod-bit_xor : (k x y : ℕ) → bit_xor x y % 2 ^ k ≡ bit_xor (x % 2 ^ k) (y % 2 ^ k)
mod-bit_xor k x y =
    sym (bit_and_mask k (bit_xor x y))
    ∙ bit_and-bit_xor x y (2 ^ k - 1)
    ∙ ap₂ bit_xor (bit_and_mask k x) (bit_and_mask k y)

-- `&` with a single bit gives that bit or nothing.
pub bit_and-two_pow : (k x : ℕ) → (bit_and x (2 ^ k) ≡ 0) ⊎ (bit_and x (2 ^ k) ≡ 2 ^ k)
bit_and-two_pow zero x = ground (arith, bit_and_mask 1 x)
bit_and-two_pow (suc k) x =
    let half : 2 ^ suc k / 2 ≡ 2 ^ k = omega (arith, pow-suc 2 k) in
    let even : 2 ^ suc k % 2 ≡ 0 = omega (arith, pow-suc 2 k) in
    elim (bit_and-two_pow k (x / 2)) [
      | inl none_set ↦ inl (omega (arith, bit_and-halves x (2 ^ suc k), ap (bit_and (x / 2)) half))
      | inr is_set ↦
          inr (omega (arith, bit_and-halves x (2 ^ suc k), ap (bit_and (x / 2)) half, pow-suc 2 k))
    ]
