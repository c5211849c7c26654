-- ===== src/Lab1/Experiment.antt =====
-- lab1/error_inject/eval_main.c: the experiments on what the checksum and the CRCs notice. The results
-- of `rand()` are arguments, and what is printed is returned.
pub mod Trials
pub mod Bursts
pub mod Rows
mod Tests
use network_lab.Prelude.{
  ℕ, zero, suc, ◌+◌, ◌-◌, ◌%◌, Bool, true, false, not, Option, none, some, List, [], ◌∷◌, ◌++◌, u16,
  take, replicate, length, if◌then◌else◌, ◌>>=◌,
}
use network_lab.Lab1.Checksum.{checksum16_compute, checksum16_verify}
use network_lab.Lab1.Crc.{CrcGen, crc_compute, crc_verify}
use network_lab.Lab1.Frame.{Frame, header_size, payload_size, to_bytes}
use network_lab.Lab1.Inject.{inject_burst_error}
use network_lab.Lab1.Target.{inject_compensating_error, inject_generator_multiple_error}

abbrev pub crc_table : List CrcGen
crc_table =
    record { poly = 0xd5; degree = 8 }
    ∷ record { poly = 0x233; degree = 10 }
    ∷ record { poly = 0x8005; degree = 16 }
    ∷ record { poly = 0x04c1_1db7; degree = 32 }
    ∷ []

abbrev pub region_len : ℕ
region_len = header_size + payload_size

unfoldable pub clean_frame : List ℕ → ℕ → ℕ → Frame
clean_frame payload payload_len seq = record {
  header = record {
    frame_type = 0;
    src_addr = replicate 6 0xaa;
    dest_addr = replicate 6 0xbb;
    frame_len = u16 payload_len;
    frame_seq = u16 seq;
  };
  payload = take payload_len payload ++ replicate (payload_size - payload_len) 0;
  trailer = record { fcs = 0 };
}

-- `rand i` is the result of the call for byte `i`.
unfoldable pub random_payload : (ℕ → ℕ) → ℕ → List ℕ
random_payload rand zero = []
random_payload rand (suc len) = rand 0 % 256 ∷ random_payload (λ i. rand (suc i)) len

-- What one turn of a loop over the trials takes from `rand()`: the payload, and the error.
pub record Trial : Type 0 where
  pub payload_rand : ℕ → ℕ
  pub error_rands : List ℕ
  pub first_burst_rand : ℕ
  pub second_burst_rand : ℕ

-- The frame of trial `t`, as bytes.
unfoldable pub trial_frame : ℕ → Trial → List ℕ
trial_frame t trial =
    to_bytes (clean_frame (random_payload trial.payload_rand payload_size) payload_size t)

-- Whether the checksum and the CRC of the clean frame fail on a changed one. `none` is a read outside
-- the frame.
unfoldable pub caught : CrcGen → List ℕ → List ℕ → Option (Bool × Bool)
caught p clean changed = do
  chk ← checksum16_compute clean region_len
  crc ← crc_compute clean region_len p
  checksum_valid ← checksum16_verify changed region_len chk
  crc_valid ← crc_verify changed region_len p crc
  some (not checksum_valid, not crc_valid)

-- `none` is also an injection that has not ended with the results of `rand()` given.
unfoldable pub compensating_trial : CrcGen → ℕ → Trial → Option (Bool × Bool)
compensating_trial p t trial = do
  changed ← inject_compensating_error trial.error_rands (trial_frame t trial) region_len
  caught p (trial_frame t trial) changed

unfoldable pub multiple_trial : CrcGen → ℕ → Trial → Option (Bool × Bool)
multiple_trial p t trial =
    caught p (trial_frame t trial)
      (inject_generator_multiple_error (trial_frame t trial) region_len p)

-- Whether the CRC fails on a frame with a burst of this length.
unfoldable pub burst_caught : CrcGen → List ℕ → ℕ → ℕ → Option Bool
burst_caught p clean rand burst_len = do
  crc ← crc_compute clean region_len p
  crc_valid ← crc_verify (inject_burst_error rand clean region_len burst_len) region_len p crc
  some (not crc_valid)

-- A burst of length r, and one of length r + 1 in the same frame made again.
unfoldable pub burst_trial : CrcGen → ℕ → Trial → Option (Bool × Bool)
burst_trial p t trial = do
  at_r ← burst_caught p (trial_frame t trial) trial.first_burst_rand p.degree
  at_r_plus_1 ← burst_caught p (trial_frame t trial) trial.second_burst_rand (p.degree + 1)
  some (at_r, at_r_plus_1)

abbrev pub count : Bool → ℕ
count true = 1
count false = 0

-- `for (int t = 0; t < trials; t++)`, from trial `t` on, with the two counters.
unfoldable pub run_trials :
    (ℕ → Trial → Option (Bool × Bool)) → List Trial → ℕ → ℕ → ℕ → Option (ℕ × ℕ)
run_trials run [] t first second = some (first, second)
run_trials run (trial ∷ trials) t first second = do
  (a, b) ← run t trial
  run_trials run trials (t + 1) (first + count a) (second + count b)

-- The loop over a table of generators: the row of counters for each.
unfoldable pub for_each :
    (CrcGen → ℕ → Trial → Option (Bool × Bool))
    → (CrcGen → List Trial)
    → List CrcGen
    → Option (List (ℕ × ℕ))
for_each run trials [] = some []
for_each run trials (p ∷ table) = do
  row ← run_trials (run p) (trials p) 0 0 0
  rows ← for_each run trials table
  some (row ∷ rows)

unfoldable pub compensating_error : (CrcGen → List Trial) → Option (List (ℕ × ℕ))
compensating_error trials = for_each compensating_trial trials crc_table

unfoldable pub generator_multiple : (CrcGen → List Trial) → Option (List (ℕ × ℕ))
generator_multiple trials = for_each multiple_trial trials crc_table

unfoldable pub burst_boundary : (CrcGen → List Trial) → Option (List (ℕ × ℕ))
burst_boundary trials = for_each burst_trial trials crc_table

-- The region is exactly as long as it is said to be, and its length is odd.
unfoldable pub all_zero : Option Bool
all_zero = checksum16_verify (replicate region_len 0) region_len 0
