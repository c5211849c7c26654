-- ===== src/Lab1/Inject/Spot.antt =====
-- lab1/error_inject/bit_flip.c: where a burst lies.
use network_lab.Prelude.{
  ℕ, zero, ◌+◌, ◌-◌, ◌*◌, ◌/◌, ◌%◌, ◌≤◌, ◌<◌, ◌≡◌, refl, sym, ap, ◌∙◌, false, List, ◌++◌, length,
  length-replicate, replicate, ltb, arith, ◌==◌,
}
use network_lab.Lab1.Crc.Linear.{xor_bytes}
use network_lab.Lab1.Inject.{inject_burst_error}
use network_lab.Lab1.Inject.Combined.{xor_bytes-zeros}
use network_lab.Lab1.Inject.Burst.{burst, spot, burst-xor_bytes, burst-zeros}

inject_burst_error-burst :
    (rand : ℕ) (buf : List ℕ) (len burst_len : ℕ)
    → 2 ≤ burst_len
    → burst_len ≤ len * 8
    → inject_burst_error rand buf len burst_len
      ≡ burst (rand % (len * 8 - burst_len + 1)) burst_len buf len
unfolding inject_burst_error burst
inject_burst_error-burst rand buf len burst_len two fits =
    let start_bit : ℕ = rand % (len * 8 - burst_len + 1) in
    let nonzero : (burst_len == 0) ≡ false = ground arith in
    let enough : ltb (len * 8) burst_len ≡ false = ground arith in
    let count : start_bit + burst_len - 1 - (start_bit + 1) ≡ burst_len - 2 = omega arith in
    let last : start_bit + burst_len - 1 ≡ start_bit + (burst_len - 1) = omega arith in
    rw (nonzero, enough, count, last) refl

-- A burst that fits leaves a spot between zeros, combined with what was there.
pub inject_burst_error-spot :
    (rand : ℕ) (buf : List ℕ) (len burst_len : ℕ)
    → 2 ≤ burst_len
    → burst_len ≤ len * 8
    → len ≤ length buf
    → (q start m : ℕ) × (start < 8)
      × (q + (start + burst_len + 7) / 8 ≤ len)
      × (q + ((start + burst_len + 7) / 8 + m) ≡ length buf)
      × (inject_burst_error rand buf len burst_len
          ≡ xor_bytes buf (
              replicate q 0
              ++ (spot start burst_len ((start + burst_len + 7) / 8) ++ replicate m 0)))
inject_burst_error-spot rand buf len burst_len two fits inside = (
  q,
  start,
  m,
  omega arith,
  omega arith,
  omega arith,
  inject_burst_error-burst rand buf len burst_len two fits
      ∙ ap (λ t. burst t burst_len buf len) begin
      ∙ ap (λ b. burst (q * 8 + start) burst_len b len) (sym (xor_bytes-zeros buf))
      ∙ burst-xor_bytes (q * 8 + start) burst_len buf (replicate (length buf) 0) len
          (sym (length-replicate (length buf) zero))
      ∙ ap (λ t. xor_bytes buf (burst (q * 8 + start) burst_len (replicate t 0) len)) (sym all)
      ∙ ap (xor_bytes buf)
          (burst-zeros start burst_len q width m len two (omega arith) (omega arith)),
)
  where
    start_bit : ℕ
    start_bit = rand % (len * 8 - burst_len + 1)

    q : ℕ
    q = start_bit / 8

    start : ℕ
    start = start_bit % 8

    width : ℕ
    width = (start + burst_len + 7) / 8

    m : ℕ
    m = length buf - (q + width)

    all : q + (width + m) ≡ length buf
    all = omega arith

    begin : start_bit ≡ q * 8 + start
    begin = omega arith
