-- ===== src/Lab1/Tests.antt =====
-- The code of lab1 on small inputs.
use Prim.Native.String.{String}
use network_lab.Prelude.{ℕ, ◌≡◌, ◌↔◌, ◌⊎◌, refl, true, false, some, none, List, [], ◌∷◌, set, arith}
use network_lab.Lab1.Checksum.{
  checksum16_compute, checksum16_verify, ones_comp_sum, sum_loop, carry_loop, word_of,
}
use network_lab.Lab1.Checksum.Sum.{IsBytes, ones, total, ones_comp_sum-ones}
use network_lab.Lab1.Checksum.Laws.{verify_iff, verify-set}
use network_lab.Lab1.Crc.{crc_compute}
use network_lab.Lab1.Scheme.{crc8, crc10, crc_generator, parse_scheme}
use network_lab.Lab1.Scheme.Names.{scheme_name_str, parse_scheme-scheme_name_str_iff}
use network_lab.Lab1.Inject.{flip_bit, inject_burst_error}
use network_lab.Lab1.Inject.Flip.{flip_bit-flip_bit, inject_burst_error-one}
use network_lab.Lab1.Frame.{IsFrame, zero_frame, to_bytes}
use network_lab.Lab1.Frame.Seal.{seal, fcs_matches}
use network_lab.Lab1.Frame.Sealed.{fcs_matches-seal, fcs_matches-flip_bit}

abbrev sample : List ℕ
sample = 0x45 ∷ 0 ∷ 0xff ∷ 0x73 ∷ []

sample-IsBytes : IsBytes sample
sample-IsBytes = omega arith

sample_sum : ones_comp_sum sample 4 ≡ some 0x4474
unfolding ones_comp_sum sum_loop carry_loop word_of
sample_sum = refl

-- A carry out of the high bit comes round.
carry_round : carry_loop 3 0x1_fffe ≡ some 0xffff
unfolding carry_loop
carry_round = refl

-- An odd length at the end of the array reads behind it.
odd_at_end : checksum16_compute (1 ∷ 2 ∷ 3 ∷ []) 3 ≡ none
unfolding checksum16_compute ones_comp_sum sum_loop carry_loop word_of
odd_at_end = refl

crc8_of_one_byte : crc_compute (1 ∷ []) 1 (crc_generator crc8) ≡ some 0xa70b
unfolding crc_compute crc_generator
crc8_of_one_byte = refl

ones_comp_sum-ones_example : ones_comp_sum sample 3 ≡ some (ones (total sample 3))
ones_comp_sum-ones_example = ones_comp_sum-ones sample 3 sample-IsBytes (omega arith)

verify_iff_example : (checksum16_verify sample 4 0xbb8b ≡ some true) ↔ (
    (checksum16_compute sample 4 ≡ some 0xbb8b)
    ⊎ ((checksum16_compute sample 4 ≡ some 0) × (◌≡◌ {A = ℕ} 0xbb8b 0xffff)))
verify_iff_example = verify_iff sample 4 0xbb8b sample-IsBytes (omega arith) (omega arith)

sample_checksum : checksum16_compute sample 4 ≡ some 0xbb8b
unfolding checksum16_compute ones_comp_sum sum_loop carry_loop word_of
sample_checksum = refl

verify-set_example : checksum16_verify (set sample 1 8) 4 0xbb8b ≡ some false
verify-set_example =
    verify-set sample 4 1 8 0xbb8b sample-IsBytes (omega arith) (omega arith) (omega arith)
      (omega arith) sample_checksum

parse_scheme-scheme_name_str_iff_example :
    (parse_scheme "crc10" ≡ some crc10) ↔ (◌≡◌ {A = String} "crc10" (scheme_name_str crc10))
parse_scheme-scheme_name_str_iff_example = parse_scheme-scheme_name_str_iff "crc10" crc10

flip_bit-flip_bit_example : flip_bit (flip_bit sample 4 17) 4 17 ≡ sample
flip_bit-flip_bit_example = flip_bit-flip_bit sample 17 sample-IsBytes (omega arith)

inject_burst_error-one_example : inject_burst_error 1234 sample 4 1 ≡ sample
inject_burst_error-one_example = inject_burst_error-one 1234 sample sample-IsBytes (omega arith)

zero_frame-IsFrame : IsFrame zero_frame
zero_frame-IsFrame = omega arith

fcs_matches-seal_example : fcs_matches (to_bytes (seal zero_frame)) ≡ true
fcs_matches-seal_example = fcs_matches-seal zero_frame-IsFrame refl

fcs_matches-flip_bit_example : fcs_matches (flip_bit (to_bytes (seal zero_frame)) 65 490) ≡ false
fcs_matches-flip_bit_example = fcs_matches-flip_bit zero_frame-IsFrame refl 490 (omega arith)
