-- ===== src/Lab1/Crc/Linear.antt =====
-- lab1/error.c: the CRC is linear, the register that two buffers leave differs by the one that their
-- difference leaves.
use network_lab.Prelude.{
  ℕ, zero, suc, ◌-◌, ◌%◌, ◌^◌, ◌≤◌, ◌<◌, bit_and, bit_xor, ◌≡◌, refl, sym, ap, ap₂, ◌∙◌, ◌⊎◌, inl,
  inr, some, List, [], ◌∷◌, length, u32, ◌<<<◌, ◌==◌, arith, Bool-cases, if◌then◌else◌,
}
use native.Mathlib.Nat.{one-mul, one-le-pow}
use network_lab.Bits.{
  bit_xor-zero, bit_xor_self, zero-bit_xor, bit_xor-swap, shift-bit_xor, mod-bit_xor,
  bit_and-bit_xor, bit_and-two_pow,
}
use network_lab.Lab1.Crc.{
  CrcGen, msb_mask, reg_mask, crc_bit, crc_bits, crc_byte, crc_loop, crc_compute,
}

-- Two buffers of the same length, byte by byte.
abbrev pub xor_bytes : List ℕ → List ℕ → List ℕ
xor_bytes [] ys = []
xor_bytes (x ∷ xs) [] = x ∷ xs
xor_bytes (x ∷ xs) (y ∷ ys) = bit_xor x y ∷ xor_bytes xs ys

module _ (params : CrcGen) where
  -- What a step puts into the register, from the bit that leaves it.
  abbrev fed : ℕ → ℕ
  fed bit = if bit == 0 then 0 else params.poly

  feedback : ℕ → ℕ
  feedback crc = fed (bit_and crc (msb_mask params))

  crc_bit-feedback : (crc : ℕ) → crc_bit params crc ≡ bit_xor (u32 (crc <<< 1)) (feedback crc)
  unfolding crc_bit feedback
  crc_bit-feedback crc = elim (Bool-cases (bit_and crc (msb_mask params) == 0)) [
    | inl out ↦ rw out (sym (bit_xor-zero (u32 (crc <<< 1))))
    | inr stays ↦ rw stays refl
  ]

  -- Two bits, each 0 or `p`.
  fed-bit_xor :
      (p x y : ℕ)
      → 0 < p
      → (x ≡ 0) ⊎ (x ≡ p)
      → (y ≡ 0) ⊎ (y ≡ p)
      → fed (bit_xor x y) ≡ bit_xor (fed x) (fed y)
  fed-bit_xor p x y pos (inl e) (inl f) = rw (e, f) refl
  fed-bit_xor p x y pos (inl e) (inr f) =
      rw (e, f) (ap fed (zero-bit_xor p) ∙ sym (zero-bit_xor (fed p)))
  fed-bit_xor p x y pos (inr e) (inl f) =
      rw (e, f) (ap fed (bit_xor-zero p) ∙ sym (bit_xor-zero (fed p)))
  fed-bit_xor p x y pos (inr e) (inr f) =
      rw (e, f) (ap fed (bit_xor_self p) ∙ sym (bit_xor_self (fed p)))

  feedback-bit_xor : (a b : ℕ) → feedback (bit_xor a b) ≡ bit_xor (feedback a) (feedback b)
  unfolding feedback
  feedback-bit_xor a b =
      ap fed (bit_and-bit_xor a b (msb_mask params))
      ∙ fed-bit_xor (msb_mask params) _ _ mask_pos (single a) (single b)
    where
      mask : msb_mask params ≡ 2 ^ (params.degree - 1)
      mask = unfold msb_mask in one-mul (2 ^ (params.degree - 1))

      mask_pos : 0 < msb_mask params
      mask_pos = omega (arith, mask, one-le-pow (params.degree - 1) 2)

      single :
          (x : ℕ)
          → (bit_and x (msb_mask params) ≡ 0) ⊎ (bit_and x (msb_mask params) ≡ msb_mask params)
      single x = rw mask (bit_and-two_pow (params.degree - 1) x)

  crc_bit-bit_xor :
      (a b : ℕ) → crc_bit params (bit_xor a b) ≡ bit_xor (crc_bit params a) (crc_bit params b)
  crc_bit-bit_xor a b =
      crc_bit-feedback (bit_xor a b)
      ∙ ap₂ bit_xor shifted (feedback-bit_xor a b)
      ∙ bit_xor-swap (u32 (a <<< 1)) (u32 (b <<< 1)) (feedback a) (feedback b)
      ∙ sym (ap₂ bit_xor (crc_bit-feedback a) (crc_bit-feedback b))
    where
      shifted : u32 (bit_xor a b <<< 1) ≡ bit_xor (u32 (a <<< 1)) (u32 (b <<< 1))
      shifted = ap (λ t. t % 2 ^ 32) (shift-bit_xor 1 a b) ∙ mod-bit_xor 32 (a <<< 1) (b <<< 1)

  crc_bits-bit_xor :
      (n a b : ℕ)
      → crc_bits params n (bit_xor a b) ≡ bit_xor (crc_bits params n a) (crc_bits params n b)
  unfolding crc_bits
  crc_bits-bit_xor zero a b = refl
  crc_bits-bit_xor (suc n) a b =
      ap (crc_bits params n) (crc_bit-bit_xor a b)
      ∙ crc_bits-bit_xor n (crc_bit params a) (crc_bit params b)

  crc_byte-bit_xor :
      (a b x y : ℕ)
      → crc_byte params (bit_xor a b) (bit_xor x y)
        ≡ bit_xor (crc_byte params a x) (crc_byte params b y)
  unfolding crc_byte
  crc_byte-bit_xor a b x y =
      ap (λ t. bit_and (crc_bits params 8 t) (reg_mask params))
        (ap (bit_xor (bit_xor a b)) aligned
          ∙ bit_xor-swap a b (u32 (x <<< (params.degree - 8))) (u32 (y <<< (params.degree - 8))))
      ∙ ap (λ t. bit_and t (reg_mask params)) (crc_bits-bit_xor 8 _ _)
      ∙ bit_and-bit_xor _ _ (reg_mask params)
    where
      aligned :
          u32 (bit_xor x y <<< (params.degree - 8))
          ≡ bit_xor (u32 (x <<< (params.degree - 8))) (u32 (y <<< (params.degree - 8)))
      aligned =
          ap (λ t. t % 2 ^ 32) (shift-bit_xor (params.degree - 8) x y)
          ∙ mod-bit_xor 32 (x <<< (params.degree - 8)) (y <<< (params.degree - 8))

  -- Nothing comes of nothing.
  pub crc_bits-zero : (n : ℕ) → crc_bits params n 0 ≡ 0
  crc_bits-zero n = crc_bits-bit_xor n 0 0 ∙ bit_xor_self (crc_bits params n 0)

  pub crc_byte-zero : crc_byte params 0 0 ≡ 0
  crc_byte-zero = crc_byte-bit_xor 0 0 0 0 ∙ bit_xor_self (crc_byte params 0 0)

  -- Both loops read inside their buffers.
  crc_loop-xor_bytes :
      (xs ys : List ℕ) (n a b : ℕ)
      → n ≤ length xs
      → n ≤ length ys
      → (c d : ℕ) × (crc_loop params xs n a ≡ some c)
        × (crc_loop params ys n b ≡ some d)
        × (crc_loop params (xor_bytes xs ys) n (bit_xor a b) ≡ some (bit_xor c d))
  unfolding crc_loop
  crc_loop-xor_bytes xs ys zero a b h k = (a, b, refl, refl, refl)
  crc_loop-xor_bytes [] ys (suc n) a b h k = absurd (omega arith)
  crc_loop-xor_bytes (x ∷ xs) [] (suc n) a b h k = absurd (omega arith)
  crc_loop-xor_bytes (x ∷ xs) (y ∷ ys) (suc n) a b h k = rw (crc_byte-bit_xor a b x y) (
      crc_loop-xor_bytes xs ys n (crc_byte params a x) (crc_byte params b y) (omega arith)
        (omega arith))

  -- The CRC of two buffers, combined bit by bit, is that of their combination.
  pub crc_compute-xor_bytes :
      (xs ys : List ℕ) (n : ℕ)
      → n ≤ length xs
      → n ≤ length ys
      → (c d : ℕ) × (crc_compute xs n params ≡ some c)
        × (crc_compute ys n params ≡ some d)
        × (crc_compute (xor_bytes xs ys) n params ≡ some (bit_xor c d))
  unfolding crc_compute
  crc_compute-xor_bytes xs ys n h k =
      let (c, d, one, two, both) = crc_loop-xor_bytes xs ys n 0 0 h k in
      (
        crc_bits params params.degree c,
        crc_bits params params.degree d,
        rw one refl,
        rw two refl,
        rw both (ap some (crc_bits-bit_xor params.degree c d)),
      )
