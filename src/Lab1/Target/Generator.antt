-- ===== src/Lab1/Target/Generator.antt =====
-- lab1/error_inject/targeted_inject.c: the loop that flips the bits of a generator.
use network_lab.Prelude.{
  ℕ, zero, suc, ◌+◌, ◌*◌, ◌/◌, ◌≤◌, ◌<◌, ◌≡◌, refl, sym, ap, ◌∙◌, inl, inr, List, ◌++◌, length, ltb,
  ◌==◌, arith, Bool-cases,
}
use network_lab.Lab1.Crc.{CrcGen}
use network_lab.Lab1.Crc.Linear.{xor_bytes}
use network_lab.Lab1.Checksum.Sum.{IsBytes}
use network_lab.Lab1.Inject.{flip_bit}
use network_lab.Lab1.Inject.Combined.{
  length-flip_bit, flip_bit-IsBytes, flip_bit-xor_bytes, flip_bit-append,
}
use network_lab.Lab1.Target.{
  generator_bit, bit_from_msb, flip_generator, inject_generator_multiple_error,
}

below : {n m : ℕ} → n ≤ m → (k : ℕ) → k < n * 8 → bit_from_msb k / 8 < m
unfolding bit_from_msb
below h k l = omega arith

module _ (params : CrcGen) where
  pub length-flip_generator :
      (rounds k : ℕ) (buf : List ℕ) (len : ℕ)
      → length (flip_generator params rounds k buf len) ≡ length buf
  unfolding flip_generator
  length-flip_generator zero k buf len = refl
  length-flip_generator (suc rounds) k buf len = elim (Bool-cases (generator_bit params k == 0)) [
    | inl e ↦ rw e (length-flip_generator rounds (k + 1) buf len)
    | inr e ↦ rw e (
        length-flip_generator rounds (k + 1) (flip_bit buf len (bit_from_msb k)) len
        ∙ length-flip_bit buf len (bit_from_msb k))
  ]

  flip_generator-IsBytes :
      (rounds k : ℕ) (buf : List ℕ) (len : ℕ)
      → IsBytes buf
      → IsBytes (flip_generator params rounds k buf len)
  unfolding flip_generator
  flip_generator-IsBytes zero k buf len bytes = bytes
  flip_generator-IsBytes (suc rounds) k buf len bytes =
      elim (Bool-cases (generator_bit params k == 0)) [
        | inl e ↦ rw e (flip_generator-IsBytes rounds (k + 1) buf len bytes)
        | inr e ↦ rw e (
            flip_generator-IsBytes rounds (k + 1) (flip_bit buf len (bit_from_msb k)) len
              (flip_bit-IsBytes buf len (bit_from_msb k) bytes))
      ]

  -- The changed buffer is one of bytes, of the same length.
  pub inject_generator_multiple_error-IsBytes :
      (buf : List ℕ) (len : ℕ)
      → IsBytes buf
      → IsBytes (inject_generator_multiple_error buf len params)
        × (length (inject_generator_multiple_error buf len params) ≡ length buf)
  unfolding inject_generator_multiple_error
  inject_generator_multiple_error-IsBytes buf len bytes =
      elim (Bool-cases (ltb len ((params.degree + 8) / 8))) [
        | inl e ↦ rw e (bytes, refl)
        | inr e ↦ rw e (
          flip_generator-IsBytes (params.degree + 1) 0 buf len bytes,
          length-flip_generator (params.degree + 1) 0 buf len,
        )
      ]

  pub flip_generator-xor_bytes :
      (rounds k : ℕ) (xs ys : List ℕ) (len : ℕ)
      → length xs ≡ length ys
      → flip_generator params rounds k (xor_bytes xs ys) len
        ≡ xor_bytes xs (flip_generator params rounds k ys len)
  unfolding flip_generator
  flip_generator-xor_bytes zero k xs ys len e = refl
  flip_generator-xor_bytes (suc rounds) k xs ys len e =
      elim (Bool-cases (generator_bit params k == 0)) [
        | inl t ↦ rw t (flip_generator-xor_bytes rounds (k + 1) xs ys len e)
        | inr t ↦ rw t (
            ap (λ b. flip_generator params rounds (k + 1) b len)
              (flip_bit-xor_bytes xs ys len (bit_from_msb k) e)
            ∙ flip_generator-xor_bytes rounds (k + 1) xs (flip_bit ys len (bit_from_msb k)) len
                (e ∙ sym (length-flip_bit ys len (bit_from_msb k))))
      ]

  pub flip_generator-append :
      (rounds k : ℕ) (xs ys : List ℕ) (len len' : ℕ)
      → k + rounds ≤ length xs * 8
      → length xs ≤ len
      → length xs ≤ len'
      → flip_generator params rounds k (xs ++ ys) len ≡ flip_generator params rounds k xs len' ++ ys
  unfolding flip_generator
  flip_generator-append zero k xs ys len len' h l l' = refl
  flip_generator-append (suc rounds) k xs ys len len' h l l' =
      elim (Bool-cases (generator_bit params k == 0)) [
        | inl t ↦ rw t (flip_generator-append rounds (k + 1) xs ys len len' (omega arith) l l')
        | inr t ↦ rw t (
            ap (λ b. flip_generator params rounds (k + 1) b len)
              (flip_bit-append xs ys len len' (bit_from_msb k)
                (below {n = length xs} (omega arith) k (omega arith))
                (below {n = length xs} l k (omega arith))
                (below {n = length xs} l' k (omega arith)))
            ∙ flip_generator-append rounds (k + 1) (flip_bit xs len' (bit_from_msb k)) ys len len'
                (omega (arith, length-flip_bit xs len' (bit_from_msb k)))
                (omega (arith, length-flip_bit xs len' (bit_from_msb k)))
                (omega (arith, length-flip_bit xs len' (bit_from_msb k))))
      ]
