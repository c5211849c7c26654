-- ===== src/Lab1/Crc/Live.antt =====
-- lab1/error.c: a register that has a bit below the generator's degree keeps one.
use native.Mathlib.Nat.{one-mul, zero-mul, zero-mod}
use network_lab.Prelude.{
  ℕ, zero, suc, ◌+◌, ◌-◌, ◌*◌, ◌%◌, ◌^◌, ◌≤◌, bit_and, bit_xor, ◌≡◌, ◌≢◌, refl, sym, ap, ◌∙◌, inl,
  inr, some, List, [], ◌∷◌, ◌++◌, length, replicate, u32, ◌<<<◌, ◌==◌, ==_iff, arith, Bool-cases,
  ◌>>=◌,
}
use network_lab.Bits.{
  bit_xor-zero, bit_xor-step, bit_and_mask, bit_and-unset, mod_two_pow-double, mod-mod_two_pow,
}
use mathlib.Core.Option.{some_inj}
use network_lab.Lab1.Crc.{
  CrcGen, msb_mask, reg_mask, crc_bit, crc_bits, crc_byte, crc_loop, crc_compute,
}
use network_lab.Lab1.Crc.Linear.{crc_byte-zero}

-- An odd generator of a degree that the register holds.
pub record IsOdd (params : CrcGen) : Type 0 where
  pub is_odd : params.poly % 2 ≡ 1
  pub positive : 1 ≤ params.degree
  pub fits : params.degree ≤ 32

-- A register with a bit below the degree.
unfoldable pub IsLive : CrcGen → ℕ → Type 0
IsLive params crc = crc % 2 ^ params.degree ≢ 0

module _ (params : CrcGen) (odd : IsOdd params) where
  abbrev below_top : ℕ
  below_top = params.degree - 1

  top_lem : suc below_top ≡ params.degree
  top_lem = omega (arith, odd.positive)

  mask_lem : msb_mask params ≡ 2 ^ below_top
  mask_lem = unfold msb_mask in one-mul (2 ^ below_top)

  shifted_lem : (crc : ℕ) → u32 (crc <<< 1) % 2 ^ params.degree ≡ 2 * (crc % 2 ^ below_top)
  shifted_lem crc =
      mod-mod_two_pow params.degree 32 (crc <<< 1) odd.fits
      ∙ ap (λ d. (crc * 2) % 2 ^ d) (sym top_lem)
      ∙ mod_two_pow-double below_top crc

  even_lem : (crc : ℕ) → u32 (crc <<< 1) % 2 ≡ 0
  even_lem crc = mod-mod_two_pow 1 32 (crc <<< 1) (omega arith) ∙ omega arith

  -- An odd number has a bit below every width.
  odd-IsLive : (crc : ℕ) → crc % 2 ≡ 1 → IsLive params crc
  unfolding IsLive
  odd-IsLive crc e none_set =
      absurd
        (omega (arith, mod-mod_two_pow 1 params.degree crc odd.positive, ap (λ t. t % 2) none_set))

  crc_bit-IsLive : (crc : ℕ) → IsLive params crc → IsLive params (crc_bit params crc)
  unfolding crc_bit IsLive
  crc_bit-IsLive crc live = elim (Bool-cases (bit_and crc (msb_mask params) == 0)) [
    | inl out ↦ rw out (λ gone. live (
        ap (λ d. crc % 2 ^ d) (sym top_lem)
        ∙ bit_and-unset below_top crc (ap (bit_and crc) (sym mask_lem) ∙ (==_iff _ _).0 out)
        ∙ omega (arith, shifted_lem crc)))
    | inr stays ↦ rw stays (
        odd-IsLive (bit_xor (u32 (crc <<< 1)) params.poly)
          (omega (arith, bit_xor-step (u32 (crc <<< 1)) params.poly, even_lem crc, odd.is_odd)))
  ]

  crc_bits-IsLive : (n crc : ℕ) → IsLive params crc → IsLive params (crc_bits params n crc)
  unfolding crc_bits
  crc_bits-IsLive zero crc live = live
  crc_bits-IsLive (suc n) crc live =
      crc_bits-IsLive n (crc_bit params crc) (crc_bit-IsLive crc live)

  reg_mask_lem : reg_mask params ≡ 2 ^ params.degree - 1
  unfolding reg_mask
  reg_mask_lem = elim (Bool-cases (params.degree == 32)) [
    | inl e ↦ rw (e, (==_iff _ _).0 e) refl
    | inr e ↦ rw e (ap (λ t. t - 1) (one-mul (2 ^ params.degree)))
  ]

  -- So does a byte without a bit set.
  crc_byte-IsLive : (crc : ℕ) → IsLive params crc → IsLive params (crc_byte params crc 0)
  unfolding crc_byte IsLive
  crc_byte-IsLive crc live =
      let nothing : u32 (0 <<< (params.degree - 8)) ≡ 0 =
        ap (λ t. t % 2 ^ 32) (zero-mul (2 ^ (params.degree - 8))) in
      let still = crc_bits-IsLive 8 (bit_xor crc 0) (rw (bit_xor-zero crc) live) in
      rw (nothing, reg_mask_lem, bit_and_mask params.degree (crc_bits params 8 (bit_xor crc 0)))
        (λ gone. still (sym (mod-mod_two_pow params.degree params.degree _ (omega arith)) ∙ gone))

  crc_loop-IsLive :
      (n m crc : ℕ)
      → n ≤ m
      → IsLive params crc
      → (c : ℕ) × (crc_loop params (replicate m 0) n crc ≡ some c) × IsLive params c
  unfolding crc_loop
  crc_loop-IsLive zero m crc h live = (crc, refl, live)
  crc_loop-IsLive (suc n) zero crc h live = absurd (omega arith)
  crc_loop-IsLive (suc n) (suc m) crc h live =
      crc_loop-IsLive n m (crc_byte params crc 0) (omega arith) (crc_byte-IsLive crc live)

  crc_loop-behind :
      (xs ys : List ℕ) (n crc : ℕ) {c : ℕ}
      → crc_loop params xs (length xs) crc ≡ some c
      → crc_loop params (xs ++ ys) (length xs + n) crc ≡ crc_loop params ys n c
  unfolding crc_loop
  crc_loop-behind [] ys n crc e =
      let whole : 0 + n ≡ n = omega arith in
      ap (λ t. crc_loop params ys t crc) whole ∙ ap (crc_loop params ys n) (some_inj.0 e)
  crc_loop-behind (x ∷ xs) ys n crc e =
      let next : suc (length xs) + n ≡ suc (length xs + n) = omega arith in
      ap (λ t. crc_loop params (x ∷ (xs ++ ys)) t crc) next
      ∙ crc_loop-behind xs ys n (crc_byte params crc x) e

  crc_loop-leading :
      (q : ℕ) (ys : List ℕ) (n : ℕ)
      → crc_loop params (replicate q 0 ++ ys) (q + n) 0 ≡ crc_loop params ys n 0
  unfolding crc_loop
  crc_loop-leading zero ys n =
      let whole : 0 + n ≡ n = omega arith in ap (λ t. crc_loop params ys t 0) whole
  crc_loop-leading (suc q) ys n =
      let next : suc q + n ≡ suc (q + n) = omega arith in
      ap (λ t. crc_loop params (0 ∷ (replicate q 0 ++ ys)) t 0) next
      ∙ ap (crc_loop params (replicate q 0 ++ ys) (q + n)) (crc_byte-zero params)
      ∙ crc_loop-leading q ys n

  -- The CRC of a spot of bytes among zeros is not 0, when the spot leaves something in the register.
  pub crc_compute-IsLive :
      (q : ℕ) (xs : List ℕ) (m n : ℕ) {c : ℕ}
      → q + length xs ≤ n
      → n ≤ q + length xs + m
      → crc_loop params xs (length xs) 0 ≡ some c
      → IsLive params c
      → (e : ℕ) × (crc_compute (replicate q 0 ++ (xs ++ replicate m 0)) n params ≡ some e) × (e ≢ 0)
  unfolding crc_compute
  crc_compute-IsLive q xs m n {c} h k ran live =
      let rest : ℕ = n - (q + length xs) in
      let (d, done, still) = crc_loop-IsLive rest m c (omega arith) live in
      let last = crc_bits-IsLive params.degree d still in
      let all : n ≡ q + (length xs + rest) = omega arith in
      (
        crc_bits params params.degree d,
        ap
              (λ t.
                crc_loop params (replicate q 0 ++ (xs ++ replicate m 0)) t 0
                >>= (λ c'. some (crc_bits params params.degree c')))
              all
            ∙ rw
                (
                  crc_loop-leading q (xs ++ replicate m 0) (length xs + rest),
                  crc_loop-behind xs (replicate m 0) rest 0 ran,
                  done,
                )
                refl,
        λ none_left.
            unfold IsLive in
            last (ap (λ t. t % 2 ^ params.degree) none_left ∙ zero-mod (2 ^ params.degree)),
      )
