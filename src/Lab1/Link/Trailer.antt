-- ===== src/Lab1/Link/Trailer.antt =====
-- lab1: the check sequences that the sender writes are 32-bit numbers which the receiver accepts.
use network_lab.Prelude.{
  ℕ, zero, suc, ◌^◌, ◌<◌, ◌≡◌, refl, ap, ◌∙◌, inl, inr, true, some, List, [], ◌∷◌, ◌++◌, length,
  ◌==◌, bit_and, Bool-cases, arith, ==_iff, u16, u32, ◌<<<◌,
}
use network_lab.Bits.{bit_xor-lt}
use network_lab.Lab1.Checksum.{checksum16_compute, checksum16_verify}
use network_lab.Lab1.Checksum.Sum.{compute-ones}
use network_lab.Lab1.Checksum.Laws.{verify_iff}
use network_lab.Lab1.Crc.{
  CrcGen, msb_mask, crc_bit, crc_bits, crc_byte, crc_loop, crc_compute, crc_verify,
}
use network_lab.Lab1.Scheme.{
  Scheme, checksum16, crc8, crc10, crc16, crc32, crc_generator, compute_fcs, verify_fcs,
}
use network_lab.Lab1.Frame.{Frame, IsFrame, be32, covered, to_bytes}
use network_lab.Lab1.Frame.Bytes.{to_bytes-IsBytes, length-covered, of_bytes-to_bytes}
use network_lab.Lab1.Frame.Seal.{fcs_of, seal}
use network_lab.Lab1.Frame.Detect.{fcs_of-ones}
use network_lab.Lab1.Checksum.Sum.{IsBytes}
use network_lab.Lab1.Frame.Sealed.{length-to_bytes, seal-IsFrame, fcs-lt, fcs_of-seal}
use network_lab.Lab1.Link.{seal_with, accepts}

-- The register is a `uint32_t` behind every step.
crc_bit-lt : (params : CrcGen) (crc : ℕ) → params.poly < 2 ^ 32 → crc_bit params crc < 2 ^ 32
unfolding crc_bit
crc_bit-lt params crc h = elim (Bool-cases (bit_and crc (msb_mask params) == 0)) [
  | inl e ↦ rw e (omega arith)
  | inr e ↦ rw e (bit_xor-lt 32 (u32 (crc <<< 1)) params.poly (omega arith) h)
]

crc_bits-lt :
    (params : CrcGen) (n crc : ℕ) → params.poly < 2 ^ 32 → 0 < n → crc_bits params n crc < 2 ^ 32
unfolding crc_bits
crc_bits-lt params zero crc h pos = absurd (omega arith)
crc_bits-lt params (suc zero) crc h pos = crc_bit-lt params crc h
crc_bits-lt params (suc (suc n)) crc h pos =
    crc_bits-lt params (suc n) (crc_bit params crc) h (omega arith)

-- The CRC of the first bytes does not read what is behind them.
crc_loop-append :
    (params : CrcGen) (xs : List ℕ) (n crc : ℕ)
    → length xs ≡ n
    → (c : ℕ) × ((ys : List ℕ) → crc_loop params (xs ++ ys) n crc ≡ some c)
unfolding crc_loop
crc_loop-append params xs zero crc e = (crc, λ ys. refl)
crc_loop-append params [] (suc n) crc e = absurd (omega arith)
crc_loop-append params (x ∷ xs) (suc n) crc e =
    crc_loop-append params xs n (crc_byte params crc x) (omega arith)

-- A generator of lab1/scheme.c
abbrev IsGenerator : CrcGen → Type 0
IsGenerator params = (params.poly < 2 ^ 32) × (0 < params.degree)

crc_compute-append :
    (params : CrcGen) (xs : List ℕ) (n : ℕ)
    → IsGenerator params
    → length xs ≡ n
    → (c : ℕ) × (c < 2 ^ 32) × ((ys : List ℕ) → crc_compute (xs ++ ys) n params ≡ some c)
unfolding crc_compute
crc_compute-append params xs n (h, pos) e =
    let (c, computed) = crc_loop-append params xs n 0 e in
    (
      crc_bits params params.degree c,
      crc_bits-lt params params.degree c h pos,
      λ ys. rw (computed ys) refl,
    )

module _ {f : Frame} (w : IsFrame f) where
  with_fcs-IsFrame : (c : ℕ) → c < 2 ^ 32 → IsFrame (record f { trailer = record { fcs = c } })
  with_fcs-IsFrame c h = record {
    type_fits = w.type_fits;
    src_size = w.src_size;
    src_bytes = w.src_bytes;
    dest_size = w.dest_size;
    dest_bytes = w.dest_bytes;
    len_fits = w.len_fits;
    seq_fits = w.seq_fits;
    payload_size = w.payload_size;
    payload_bytes = w.payload_bytes;
    fcs_fits = h;
  }

  crc_compute-with_fcs :
      (params : CrcGen)
      → IsGenerator params
      → (c : ℕ) × (c < 2 ^ 32)
        × (crc_compute (to_bytes f) 61 params ≡ some c)
        × (crc_compute (to_bytes (record f { trailer = record { fcs = c } })) 61 params ≡ some c)
  unfolding to_bytes covered
  crc_compute-with_fcs params g =
      let (c, small, computed) = crc_compute-append params (covered f) 61 g (length-covered w) in
      (c, small, computed (be32 f.trailer.fcs), computed (be32 c))

-- What the sender writes into the trailer fits there, and the receiver accepts it.
abbrev pub Accepted : Scheme → Frame → Type 0
Accepted scheme f =
    IsFrame (seal_with scheme f) × (accepts scheme (to_bytes (seal_with scheme f)) ≡ true)

crc_verify-true :
    (params : CrcGen) (bytes : List ℕ) (c : ℕ)
    → crc_compute bytes 61 params ≡ some c
    → crc_verify bytes 61 params c ≡ some true
unfolding crc_verify
crc_verify-true params bytes c e =
    let same : (c == c) ≡ true = (==_iff c c).1 refl in rw (e, same) refl

module _ {f : Frame} (w : IsFrame f) (blank : f.trailer.fcs ≡ 0) where
  checksum16_compute-seal :
      checksum16_compute (to_bytes (seal f)) 61 ≡ some (u16 (seal f).trailer.fcs)
  unfolding seal
  checksum16_compute-seal =
      compute-ones (to_bytes (seal f)) 61 bytes (omega (arith, size))
      ∙ ap some (
          omega (
            arith,
            fcs_of-ones (to_bytes (seal f)) bytes (omega (arith, size)),
            fcs_of-seal w blank,
            fcs-lt w blank,
          ))
    where
      bytes : IsBytes (to_bytes (seal f))
      bytes = to_bytes-IsBytes (seal-IsFrame w blank)

      size : length (to_bytes (seal f)) ≡ 65
      size = length-to_bytes (seal-IsFrame w blank)

  checksum16_verify-true :
      checksum16_verify (to_bytes (seal f)) 61 (u16 (seal f).trailer.fcs) ≡ some true
  checksum16_verify-true =
      (verify_iff (to_bytes (seal f)) 61 (u16 (seal f).trailer.fcs)
          (to_bytes-IsBytes (seal-IsFrame w blank))
          (omega (arith, length-to_bytes (seal-IsFrame w blank))) (omega arith)).1
        (inl checksum16_compute-seal)

  seal_with-checksum16 : Accepted checksum16 f
  unfolding seal_with accepts verify_fcs seal fcs_of
  seal_with-checksum16 = (
    seal-IsFrame w blank,
    rw (of_bytes-to_bytes (seal-IsFrame w blank), checksum16_verify-true) refl,
  )

  seal_with-crc :
      (scheme : Scheme) (params : CrcGen)
      → IsGenerator params
      → ((b : List ℕ) → compute_fcs scheme b 61 ≡ crc_compute b 61 params)
      → ((b : List ℕ) (c : ℕ) → verify_fcs scheme b 61 c ≡ crc_verify b 61 params c)
      → Accepted scheme f
  unfolding seal_with accepts
  seal_with-crc scheme params g computes verifies =
      let (c, small, blank_crc, sealed_crc) = crc_compute-with_fcs w params g in
      let fits = with_fcs-IsFrame w c small in
      rw (computes (to_bytes f), blank_crc)
        (
          fits,
          rw (of_bytes-to_bytes fits, verifies _ c, crc_verify-true params _ c sealed_crc) refl,
        )

  -- Under every scheme.
  pub seal_with-Accepted : (scheme : Scheme) → Accepted scheme f
  unfolding compute_fcs verify_fcs crc_generator
  seal_with-Accepted checksum16 = seal_with-checksum16
  seal_with-Accepted crc8 =
      seal_with-crc crc8 (crc_generator crc8) (omega arith) (λ b. refl) (λ b c. refl)
  seal_with-Accepted crc10 =
      seal_with-crc crc10 (crc_generator crc10) (omega arith) (λ b. refl) (λ b c. refl)
  seal_with-Accepted crc16 =
      seal_with-crc crc16 (crc_generator crc16) (omega arith) (λ b. refl) (λ b c. refl)
  seal_with-Accepted crc32 =
      seal_with-crc crc32 (crc_generator crc32) (omega arith) (λ b. refl) (λ b c. refl)
