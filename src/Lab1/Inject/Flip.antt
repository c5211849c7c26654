-- ===== src/Lab1/Inject/Flip.antt =====
-- lab1/error_inject/bit_flip.c: what a flip does to a buffer of bytes.
use network_lab.Prelude.{
  ℕ, zero, suc, ◌+◌, ◌-◌, ◌*◌, ◌/◌, ◌%◌, ◌<◌, ◌≡◌, ◌≢◌, refl, ap, ◌∙◌, List, [], ◌∷◌, arith, sym,
  length, get_or, set, length-set, bit_xor, ◌^◌, lt→ltb, ltb, false,
}
use native.Mathlib.Nat.{one-mul}
use network_lab.Bits.{bit_xor-two_pow}
use network_lab.Lab1.Checksum.Sum.{IsBytes}
use network_lab.Lab1.Inject.{flip_bit, flip_range, inject_burst_error}

pub get_or-byte : (buf : List ℕ) (j : ℕ) → IsBytes buf → get_or buf j 0 < 256
get_or-byte [] j b = omega arith
get_or-byte (x ∷ buf) zero b = b.0
get_or-byte (x ∷ buf) (suc j) b = get_or-byte buf j b.1

pub set-IsBytes : (buf : List ℕ) (j v : ℕ) → IsBytes buf → v < 256 → IsBytes (set buf j v)
set-IsBytes [] j v b h = tt
set-IsBytes (x ∷ buf) zero v b h = (h, b.1)
set-IsBytes (x ∷ buf) (suc j) v b h = (b.0, set-IsBytes buf j v b.1 h)

set-set : (buf : List ℕ) (j v w : ℕ) → set (set buf j v) j w ≡ set buf j w
set-set [] j v w = refl
set-set (x ∷ buf) zero v w = refl
set-set (x ∷ buf) (suc j) v w = ap (λ r. x ∷ r) (set-set buf j v w)

set-get_or : (buf : List ℕ) (j : ℕ) → set buf j (get_or buf j 0) ≡ buf
set-get_or [] j = refl
set-get_or (x ∷ buf) zero = refl
set-get_or (x ∷ buf) (suc j) = ap (λ r. x ∷ r) (set-get_or buf j)

pub get_or-set_self : (buf : List ℕ) (j v : ℕ) → j < length buf → get_or (set buf j v) j 0 ≡ v
get_or-set_self [] j v h = absurd (omega arith)
get_or-set_self (x ∷ buf) zero v h = refl
get_or-set_self (x ∷ buf) (suc j) v h = get_or-set_self buf j v (omega arith)

-- The byte that a flip stores.
abbrev pub flipped : List ℕ → ℕ → ℕ
flipped buf i = bit_xor (get_or buf (i / 8) 0) (2 ^ (i % 8))

pub flipped_lem :
    (buf : List ℕ) (i : ℕ)
    → IsBytes buf
    → (flipped buf i ≢ get_or buf (i / 8) 0)
      × (flipped buf i < 256)
      × (bit_xor (flipped buf i) (2 ^ (i % 8)) ≡ get_or buf (i / 8) 0)
flipped_lem buf i b =
    bit_xor-two_pow (i % 8) (get_or buf (i / 8) 0) (omega arith) (get_or-byte buf (i / 8) b)

pub flip_bit-inside :
    (buf : List ℕ) (i : ℕ)
    → i < length buf * 8
    → flip_bit buf (length buf) i ≡ set buf (i / 8) (flipped buf i)
unfolding flip_bit
flip_bit-inside buf i h = rw (lt→ltb (i / 8) (length buf) (omega arith), one-mul (2 ^ (i % 8)))

-- A bit inside the buffer: its byte is replaced by another byte.
pub flip_bit-set :
    (buf : List ℕ) (i : ℕ)
    → IsBytes buf
    → i < length buf * 8
    → (v : ℕ) × (flip_bit buf (length buf) i ≡ set buf (i / 8) v)
      × (v ≢ get_or buf (i / 8) 0)
      × (v < 256)
flip_bit-set buf i b h =
    (flipped buf i, flip_bit-inside buf i h, (flipped_lem buf i b).0, (flipped_lem buf i b).1)

-- Flipping a bit inside a buffer of bytes twice gives the buffer back.
pub flip_bit-flip_bit :
    (buf : List ℕ) (i : ℕ)
    → IsBytes buf
    → i < length buf * 8
    → flip_bit (flip_bit buf (length buf) i) (length buf) i ≡ buf
flip_bit-flip_bit buf i b h = rw (flip_bit-inside buf i h) (
    ap (λ n. flip_bit (set buf (i / 8) v) n i) (sym (length-set buf (i / 8) v))
    ∙ flip_bit-inside (set buf (i / 8) v) i (rw (length-set buf (i / 8) v) h)
    ∙ rw (get_or-set_self buf (i / 8) v (omega arith), (flipped_lem buf i b).2)
        (set-set buf (i / 8) v _ ∙ set-get_or buf (i / 8)))
  where
    v : ℕ
    v = flipped buf i

-- A burst of one bit in a buffer of bytes that is not empty flips the same bit twice, so that the
-- buffer does not change, wherever the burst starts.
pub inject_burst_error-one :
    (rand : ℕ) (buf : List ℕ)
    → IsBytes buf
    → 0 < length buf
    → inject_burst_error rand buf (length buf) 1 ≡ buf
unfolding inject_burst_error flip_range
inject_burst_error-one rand buf b h =
    rw (enters, none_between, last) (flip_bit-flip_bit buf start b (omega arith))
  where
    start : ℕ
    start = rand % (length buf * 8 - 1 + 1)

    enters : ltb (length buf * 8) 1 ≡ false
    enters = ground arith

    none_between : start + 1 - 1 - (start + 1) ≡ 0
    none_between = omega arith

    last : start + 1 - 1 ≡ start
    last = omega arith
