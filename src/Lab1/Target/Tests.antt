-- ===== src/Lab1/Target/Tests.antt =====
-- Compensating errors on concrete buffers.
use network_lab.Prelude.{
  ℕ, zero, suc, ◌+◌, ◌*◌, ◌/◌, ◌≤◌, ◌<◌, ◌≡◌, ◌≢◌, refl, none, some, List, [], ◌∷◌, get_or, length,
  ◌==◌, ◌||◌, if◌then◌else◌, arith,
}
use network_lab.Lab1.Checksum.{checksum16_compute}
use network_lab.Lab1.Inject.{flip_bit}
use network_lab.Lab1.Target.{
  byte_of, bit_in_byte, global_bit, bit_at, choose, inject_compensating_error, generator_bit,
  bit_from_msb, flip_generator, inject_generator_multiple_error,
}
use network_lab.Lab1.Target.Multiple.{inject_generator_multiple_error-compute}
use network_lab.Lab1.Scheme.{crc16, crc_generator}
use network_lab.Lab1.Crc.{crc_compute}
use network_lab.Lab1.Target.Words.{word, invert}
use network_lab.Lab1.Target.Exchanged.{inject_compensating_error-returns}
use network_lab.Lab1.Target.Blind.{inject_compensating_error-compute}
use network_lab.Lab1.Target.Endless.{inject_compensating_error-endless}

abbrev buffer : List ℕ
buffer = 0 ∷ 5 ∷ 0 ∷ 9 ∷ []

-- Column 2 of the two words is flipped.
returned : inject_compensating_error (0 ∷ 1 ∷ 2 ∷ []) buffer 4 ≡ some (0 ∷ 1 ∷ 0 ∷ 13 ∷ [])
unfolding inject_compensating_error choose bit_at global_bit byte_of bit_in_byte flip_bit
returned = refl

-- The words are 5 and 9, and 1 and 13 behind the run above.
inject_compensating_error-returns_example :
    (changed : List ℕ) × (inject_compensating_error (0 ∷ 1 ∷ 2 ∷ []) buffer 4 ≡ some changed)
    × (length changed ≡ 4)
    × ((w : ℕ)
        → word changed w
          ≡ (if (w == 0) || (w == 1) then invert 2 (word buffer w) else word buffer w))
inject_compensating_error-returns_example =
    inject_compensating_error-returns buffer 4 0 1 2 [] (omega arith) (omega arith) (omega arith)
      (omega arith) (omega arith) (omega arith) (omega arith) (omega arith)

inject_compensating_error-compute_example :
    ((0 ∷ 1 ∷ 0 ∷ 13 ∷ []) ≢ buffer)
    × (checksum16_compute (0 ∷ 1 ∷ 0 ∷ 13 ∷ []) 4 ≡ checksum16_compute buffer 4)
inject_compensating_error-compute_example =
    inject_compensating_error-compute (0 ∷ 1 ∷ 2 ∷ []) buffer 4 (omega arith) (omega arith)
      (omega arith) returned

abbrev uniform : List ℕ
uniform = 3 ∷ 8 ∷ 3 ∷ 8 ∷ []

uniform_words :
    (w : ℕ) → w < 2 → (get_or uniform (2 * w) 0 ≡ 3) × (get_or uniform (2 * w + 1) 0 ≡ 8)
uniform_words zero h = (refl, refl)
uniform_words (suc zero) h = (refl, refl)
uniform_words (suc (suc w)) h = absurd (omega arith)

inject_compensating_error-endless_example :
    inject_compensating_error (0 ∷ 1 ∷ 7 ∷ []) uniform 4 ≡ none
inject_compensating_error-endless_example =
    inject_compensating_error-endless uniform 4 3 8 (0 ∷ 1 ∷ 7 ∷ []) (omega arith) uniform_words

enough : ((crc_generator crc16).degree + 8) / 8 ≤ 4
unfolding crc_generator
enough = omega arith

inject_generator_multiple_error-compute_example :
    (inject_generator_multiple_error buffer 4 (crc_generator crc16) ≢ buffer)
    × (crc_compute
          (inject_generator_multiple_error buffer 4 (crc_generator crc16))
          4
          (crc_generator crc16)
        ≡ crc_compute buffer 4 (crc_generator crc16))
inject_generator_multiple_error-compute_example =
    inject_generator_multiple_error-compute crc16 buffer 4 tt enough (omega arith)

multiple_run :
    inject_generator_multiple_error buffer 4 (crc_generator crc16) ≡ 192 ∷ 7 ∷ 128 ∷ 9 ∷ []
unfolding inject_generator_multiple_error flip_generator generator_bit bit_from_msb flip_bit
    crc_generator
multiple_run = refl
