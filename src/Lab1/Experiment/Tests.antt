-- ===== src/Lab1/Experiment/Tests.antt =====
-- lab1/error_inject/eval_main.c: the experiments, with one trial for each generator.
use network_lab.Prelude.{
  ℕ, ◌+◌, ◌≡◌, refl, some, false, List, [], ◌∷◌, length, All, arith, inr, none,
}
use network_lab.Lab1.Crc.{CrcGen, crc_compute, crc_verify}
use network_lab.Lab1.Checksum.{
  word_of, carry_loop, sum_loop, ones_comp_sum, checksum16_compute, checksum16_verify,
}
use network_lab.Lab1.Scheme.{crc8, crc_generator}
use network_lab.Lab1.Inject.{flip_bit, inject_burst_error}
use network_lab.Lab1.Frame.{covered, to_bytes}
use network_lab.Lab1.Target.{
  byte_of, bit_in_byte, global_bit, bit_at, choose, inject_compensating_error,
}
use network_lab.Lab1.Experiment.{
  clean_frame, random_payload, Trial, trial_frame, caught, compensating_trial, run_trials, for_each,
  compensating_error, generator_multiple, burst_boundary, all_zero,
}
use network_lab.Lab1.Experiment.Bursts.{inject_burst_error-crc_verify}
use network_lab.Lab1.Experiment.Rows.{
  compensating_error-row, generator_multiple-row, burst_boundary-map,
}

-- Column 9 of the first two words differs.
abbrev trial : Trial
trial = record {
  payload_rand = λ i. i + 1000;
  error_rands = 0 ∷ 1 ∷ 9 ∷ [];
  first_burst_rand = 1234;
  second_burst_rand = 77;
}

abbrev trials : CrcGen → List Trial
trials p = trial ∷ []

compensating_error_run : compensating_error trials ≡ some ((0, 1) ∷ (0, 1) ∷ (0, 1) ∷ (0, 1) ∷ [])
unfolding compensating_error for_each run_trials compensating_trial trial_frame clean_frame
    random_payload to_bytes caught inject_compensating_error checksum16_compute checksum16_verify
    crc_compute crc_verify choose bit_at covered byte_of bit_in_byte ones_comp_sum sum_loop
    carry_loop word_of flip_bit global_bit
compensating_error_run = refl

-- The last word of the region reaches behind the array.
all_zero_run : all_zero ≡ none
unfolding all_zero checksum16_verify ones_comp_sum sum_loop carry_loop word_of
all_zero_run = refl

compensating_error-row_example :
    (length {A = ℕ × ℕ} ((0, 1) ∷ (0, 1) ∷ (0, 1) ∷ (0, 1) ∷ []) ≡ 4)
    × All {A = ℕ × ℕ} (λ row. row.0 ≡ 0) ((0, 1) ∷ (0, 1) ∷ (0, 1) ∷ (0, 1) ∷ [])
compensating_error-row_example = compensating_error-row trials compensating_error_run

generator_multiple-row_example :
    (rows : List (ℕ × ℕ)) × (generator_multiple trials ≡ some rows)
    × (length rows ≡ 4)
    × All (λ row. row.1 ≡ 0) rows
generator_multiple-row_example = generator_multiple-row trials

burst_boundary-map_example : burst_boundary trials ≡ some ((1, 1) ∷ (1, 1) ∷ (1, 1) ∷ (1, 1) ∷ [])
burst_boundary-map_example = burst_boundary-map trials

abbrev buffer : List ℕ
buffer = 1 ∷ 2 ∷ 3 ∷ 4 ∷ []

buffer_run : crc_compute buffer 4 (crc_generator crc8) ≡ some 16448
unfolding crc_compute crc_generator
buffer_run = refl

inject_burst_error-crc_verify_example :
    crc_verify (inject_burst_error 13 buffer 4 9) 4 (crc_generator crc8) 16448 ≡ some false
unfolding crc_generator
inject_burst_error-crc_verify_example =
    inject_burst_error-crc_verify crc8 13 buffer 4 9 tt (inr refl) (omega arith) (omega arith)
      buffer_run
