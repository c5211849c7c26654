-- ===== src/Lab1/Inject/Combined.antt =====
-- lab1/error_inject/bit_flip.c: flips combine a buffer with the pattern that they leave in an empty one.
use network_lab.Prelude.{
  ℕ, zero, suc, ◌/◌, ◌%◌, ◌^◌, ◌<◌, bit_xor, ◌<<<◌, ◌≡◌, refl, ap, ap₂, ◌∙◌, inl, inr, List, [],
  ◌∷◌, ◌++◌, length, length-set, replicate, get_or, set, ltb, arith, Bool-cases, lt→ltb,
}
use network_lab.Bits.{bit_xor_assoc, bit_xor-zero}
use network_lab.Lab1.Crc.Linear.{xor_bytes}
use native.Mathlib.Nat.{one-mul}
use network_lab.Lab1.Checksum.Sum.{IsBytes}
use network_lab.Lab1.Inject.{flip_bit}
use network_lab.Lab1.Inject.Flip.{set-IsBytes, flipped_lem}

pub length-flip_bit : (buf : List ℕ) (len i : ℕ) → length (flip_bit buf len i) ≡ length buf
unfolding flip_bit
length-flip_bit buf len i = elim (Bool-cases (ltb (i / 8) len)) [
  | inl e ↦ rw e (length-set buf (i / 8) _)
  | inr e ↦ rw e refl
]

pub flip_bit-IsBytes : (buf : List ℕ) (len i : ℕ) → IsBytes buf → IsBytes (flip_bit buf len i)
unfolding flip_bit
flip_bit-IsBytes buf len i bytes = elim (Bool-cases (ltb (i / 8) len)) [
  | inl e ↦
      rw (e, one-mul (2 ^ (i % 8))) (set-IsBytes buf (i / 8) _ bytes (flipped_lem buf i bytes).1)
  | inr e ↦ rw e bytes
]

pub xor_bytes-zeros : (xs : List ℕ) → xor_bytes xs (replicate (length xs) 0) ≡ xs
xor_bytes-zeros [] = refl
xor_bytes-zeros (x ∷ xs) = ap₂ ◌∷◌ (bit_xor-zero x) (xor_bytes-zeros xs)

pub get_or-xor_bytes :
    (xs ys : List ℕ) (j : ℕ)
    → length xs ≡ length ys
    → get_or (xor_bytes xs ys) j 0 ≡ bit_xor (get_or xs j 0) (get_or ys j 0)
get_or-xor_bytes [] [] j e = refl
get_or-xor_bytes [] (y ∷ ys) j e = absurd (omega arith)
get_or-xor_bytes (x ∷ xs) [] j e = absurd (omega arith)
get_or-xor_bytes (x ∷ xs) (y ∷ ys) zero e = refl
get_or-xor_bytes (x ∷ xs) (y ∷ ys) (suc j) e = get_or-xor_bytes xs ys j (omega arith)

xor_bytes-set :
    (xs ys : List ℕ) (j b : ℕ)
    → length xs ≡ length ys
    → set (xor_bytes xs ys) j (bit_xor (get_or (xor_bytes xs ys) j 0) b)
      ≡ xor_bytes xs (set ys j (bit_xor (get_or ys j 0) b))
xor_bytes-set [] ys j b e = refl
xor_bytes-set (x ∷ xs) [] j b e = absurd (omega arith)
xor_bytes-set (x ∷ xs) (y ∷ ys) zero b e = ap (λ t. t ∷ xor_bytes xs ys) (bit_xor_assoc x y b)
xor_bytes-set (x ∷ xs) (y ∷ ys) (suc j) b e =
    ap (λ t. bit_xor x y ∷ t) (xor_bytes-set xs ys j b (omega arith))

-- A flip in a combination is a flip in its second part.
pub flip_bit-xor_bytes :
    (xs ys : List ℕ) (len i : ℕ)
    → length xs ≡ length ys
    → flip_bit (xor_bytes xs ys) len i ≡ xor_bytes xs (flip_bit ys len i)
unfolding flip_bit
flip_bit-xor_bytes xs ys len i e = elim (Bool-cases (ltb (i / 8) len)) [
  | inl inside ↦ rw inside (xor_bytes-set xs ys (i / 8) _ e)
  | inr outside ↦ rw outside refl
]

set-append : (xs ys : List ℕ) (j v : ℕ) → j < length xs → set (xs ++ ys) j v ≡ set xs j v ++ ys
set-append [] ys j v h = absurd (omega arith)
set-append (x ∷ xs) ys zero v h = refl
set-append (x ∷ xs) ys (suc j) v h = ap (λ t. x ∷ t) (set-append xs ys j v (omega arith))

pub get_or-append : (xs ys : List ℕ) (j : ℕ) → j < length xs → get_or (xs ++ ys) j 0 ≡ get_or xs j 0
get_or-append [] ys j h = absurd (omega arith)
get_or-append (x ∷ xs) ys zero h = refl
get_or-append (x ∷ xs) ys (suc j) h = get_or-append xs ys j (omega arith)

-- A flip in the first part of a buffer leaves the rest alone.
pub flip_bit-append :
    (xs ys : List ℕ) (len len' i : ℕ)
    → i / 8 < length xs
    → i / 8 < len
    → i / 8 < len'
    → flip_bit (xs ++ ys) len i ≡ flip_bit xs len' i ++ ys
unfolding flip_bit
flip_bit-append xs ys len len' i h k l =
    rw (lt→ltb (i / 8) len k, lt→ltb (i / 8) len' l)
      (ap (λ t. set (xs ++ ys) (i / 8) (bit_xor t (1 <<< (i % 8)))) (get_or-append xs ys (i / 8) h)
        ∙ set-append xs ys (i / 8) _ h)
