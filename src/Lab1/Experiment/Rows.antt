-- ===== src/Lab1/Experiment/Rows.antt =====
-- lab1/error_inject/eval_main.c: the rows of counters that the experiments with targeted errors print.
use network_lab.Prelude.{
  ℕ, suc, ◌+◌, ◌≡◌, refl, sym, ap, ap₂, ◌∙◌, Bool, true, false, Option, some, List, [], ◌∷◌, length,
  arith, bind-some, All, map,
}
use mathlib.Core.Option.{some_inj}
use network_lab.Lab1.Crc.{CrcGen}
use network_lab.Lab1.Scheme.{Scheme, crc8, crc10, crc16, crc32, crc_generator}
use network_lab.Lab1.Target.Multiple.{IsCrc}
use network_lab.Lab1.Experiment.{
  crc_table, Trial, count, run_trials, for_each, compensating_trial, multiple_trial, burst_trial,
  compensating_error, burst_boundary, generator_multiple,
}
use network_lab.Lab1.Experiment.Trials.{compensating_trial-some, multiple_trial-some}
use network_lab.Lab1.Experiment.Bursts.{burst_trial-some}

-- What never happens in a trial is never counted.
run_trials-first :
    (run : ℕ → Trial → Option (Bool × Bool))
    → ((t : ℕ) (trial : Trial) (a b : Bool) → run t trial ≡ some (a, b) → a ≡ false)
    → (trials : List Trial) (t first second : ℕ) {row : ℕ × ℕ}
    → run_trials run trials t first second ≡ some row
    → row.0 ≡ first
unfolding run_trials
run_trials-first run never [] t first second e = ap (λ r. r.0) (sym (some_inj.0 e))
run_trials-first run never (trial ∷ trials) t first second e =
    let ((a, b), one, rest) = bind-some (run t trial) _ e in
    run_trials-first run never trials (t + 1) (first + count a) (second + count b) rest
    ∙ rw (never t trial a b one) (omega arith)

run_trials-second :
    (run : ℕ → Trial → Option (Bool × Bool))
    → ((t : ℕ) (trial : Trial) → (a : Bool) × (run t trial ≡ some (a, false)))
    → (trials : List Trial) (t first second : ℕ)
    → (n : ℕ) × (run_trials run trials t first second ≡ some (n, second))
unfolding run_trials
run_trials-second run never [] t first second = (first, refl)
run_trials-second run never (trial ∷ trials) t first second =
    let (a, e) = never t trial in
    let (n, f) = run_trials-second run never trials (t + 1) (first + count a) (second + 0) in
    let same : second + 0 ≡ second = omega arith in (n, rw e (f ∙ ap (λ s. some (n, s)) same))

for_each-first :
    (run : CrcGen → ℕ → Trial → Option (Bool × Bool))
    → ((p : CrcGen) (t : ℕ) (trial : Trial) (a b : Bool) → run p t trial ≡ some (a, b) → a ≡ false)
    → (trials : CrcGen → List Trial) (table : List CrcGen) {rows : List (ℕ × ℕ)}
    → for_each run trials table ≡ some rows
    → (length rows ≡ length table) × All (λ row. row.0 ≡ 0) rows
unfolding for_each
for_each-first run never trials [] e = rw (sym (some_inj.0 e)) (refl, tt)
for_each-first run never trials (p ∷ table) e =
    let (row, one, others) = bind-some (run_trials (run p) (trials p) 0 0 0) _ e in
    let (rows, two, done) = bind-some (for_each run trials table) _ others in
    let (size, all) = for_each-first run never trials table two in
    rw (sym (some_inj.0 done))
      (ap suc size, (run_trials-first (run p) (never p) (trials p) 0 0 0 one, all))

-- Whenever the experiment with compensating errors ends, whatever `rand()` gave, it has a row for
-- each of the four generators, and in none of them has the checksum caught an error.
pub compensating_error-row :
    (trials : CrcGen → List Trial) {rows : List (ℕ × ℕ)}
    → compensating_error trials ≡ some rows
    → (length rows ≡ 4) × All (λ row. row.0 ≡ 0) rows
unfolding compensating_error
compensating_error-row trials e =
    for_each-first compensating_trial (λ p t trial a b h. compensating_trial-some p t trial h)
      trials crc_table e

multiple_row :
    (scheme : Scheme)
    → IsCrc scheme
    → (trials : List Trial)
    → (n : ℕ) × (run_trials (multiple_trial (crc_generator scheme)) trials 0 0 0 ≡ some (n, 0))
multiple_row scheme crc trials =
    run_trials-second (multiple_trial (crc_generator scheme))
      (λ t trial. multiple_trial-some scheme t trial crc) trials 0 0 0

-- The experiment with multiples of the generator always ends, with a row for each of the four
-- generators, and in none of them has the CRC caught an error, whatever `rand()` gave.
pub generator_multiple-row :
    (trials : CrcGen → List Trial)
    → (rows : List (ℕ × ℕ)) × (generator_multiple trials ≡ some rows)
      × (length rows ≡ 4)
      × All (λ row. row.1 ≡ 0) rows
unfolding generator_multiple for_each crc_generator
generator_multiple-row trials =
    let (n8, e8) = multiple_row crc8 tt (trials (crc_generator crc8)) in
    let (n10, e10) = multiple_row crc10 tt (trials (crc_generator crc10)) in
    let (n16, e16) = multiple_row crc16 tt (trials (crc_generator crc16)) in
    let (n32, e32) = multiple_row crc32 tt (trials (crc_generator crc32)) in
    (
      (n8, 0) ∷ (n10, 0) ∷ (n16, 0) ∷ (n32, 0) ∷ [],
      rw (e8, e10, e16, e32) refl,
      refl,
      (refl, (refl, (refl, (refl, tt)))),
    )

-- What happens in every trial is counted in each.
run_trials-both :
    (run : ℕ → Trial → Option (Bool × Bool))
    → ((t : ℕ) (trial : Trial) → run t trial ≡ some (true, true))
    → (trials : List Trial) (t first second : ℕ)
    → run_trials run trials t first second ≡ some (first + length trials, second + length trials)
unfolding run_trials
run_trials-both run always [] t first second =
    ap some (ap₂ (λ a b. (a, b)) (omega arith) (omega arith))
run_trials-both run always (trial ∷ trials) t first second = rw (always t trial) (
    run_trials-both run always trials (t + 1) (first + 1) (second + 1)
    ∙ ap some (ap₂ (λ a b. (a, b)) (omega arith) (omega arith)))

burst_row :
    (scheme : Scheme) (trials : List Trial)
    → IsCrc scheme
    → run_trials (burst_trial (crc_generator scheme)) trials 0 0 0
      ≡ some (length trials, length trials)
burst_row scheme trials crc =
    run_trials-both (burst_trial (crc_generator scheme))
      (λ t trial. burst_trial-some scheme t trial crc) trials 0 0 0
    ∙ ap some (ap₂ (λ a b. (a, b)) (omega arith) (omega arith))

-- The experiment with bursts of a generator's degree r and of r + 1 bits counts every trial as caught
-- in both columns, for each of the four generators, whatever `rand()` gave.
pub burst_boundary-map :
    (trials : CrcGen → List Trial)
    → burst_boundary trials ≡ some (map (λ p. (length (trials p), length (trials p))) crc_table)
unfolding burst_boundary for_each crc_generator
burst_boundary-map trials =
    rw
      (
        burst_row crc8 (trials (crc_generator crc8)) tt,
        burst_row crc10 (trials (crc_generator crc10)) tt,
        burst_row crc16 (trials (crc_generator crc16)) tt,
        burst_row crc32 (trials (crc_generator crc32)) tt,
      )
      refl
