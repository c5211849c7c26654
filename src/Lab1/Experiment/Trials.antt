-- ===== src/Lab1/Experiment/Trials.antt =====
-- lab1/error_inject/eval_main.c: one trial of the experiments with targeted errors.
use network_lab.Prelude.{
  ℕ, zero, suc, ◌+◌, ◌-◌, ◌/◌, ◌≤◌, ◌≡◌, refl, sym, ap, ◌∙◌, inl, Bool, true, false, not, some,
  List, [], length, length-append, take, take-all, arith, ==_iff, bind-some, ◌==◌,
}
use mathlib.Core.Option.{some_inj}
use network_lab.Lab1.Checksum.{checksum16_compute}
use network_lab.Lab1.Checksum.Sum.{IsBytes, ones, total, compute-ones, verify-ones}
use network_lab.Lab1.Checksum.Laws.{verify_iff}
use network_lab.Lab1.Crc.{CrcGen, crc_compute, crc_verify}
use network_lab.Lab1.Crc.Linear.{crc_compute-xor_bytes}
use network_lab.Lab1.Scheme.{Scheme, checksum16, crc8, crc10, crc16, crc32, crc_generator}
use network_lab.Lab1.Frame.{IsFrame}
use network_lab.Lab1.Frame.Bytes.{to_bytes-IsBytes, IsBytes-append, IsBytes-take}
use network_lab.Lab1.Frame.Sealed.{length-to_bytes}
use network_lab.Lab1.Target.{inject_compensating_error}
use network_lab.Lab1.Target.Blind.{
  inject_compensating_error-compute, inject_compensating_error-IsBytes,
}
use network_lab.Lab1.Target.Generator.{inject_generator_multiple_error-IsBytes}
use network_lab.Lab1.Target.Multiple.{IsCrc, inject_generator_multiple_error-compute}
use network_lab.Lab1.Experiment.{
  clean_frame, random_payload, Trial, trial_frame, caught, compensating_trial, multiple_trial,
}

random_payload_lem :
    (rand : ℕ → ℕ) (len : ℕ)
    → (length (random_payload rand len) ≡ len) × IsBytes (random_payload rand len)
unfolding random_payload
random_payload_lem rand zero = (refl, tt)
random_payload_lem rand (suc len) =
    let (size, bytes) = random_payload_lem (λ i. rand (suc i)) len in
    (ap suc size, (omega arith, bytes))

clean_frame-IsFrame :
    (payload : List ℕ) (seq : ℕ)
    → length payload ≡ 44
    → IsBytes payload
    → IsFrame (clean_frame payload 44 seq)
unfolding clean_frame
clean_frame-IsFrame payload seq size bytes = record {
  type_fits = omega arith;
  src_size = refl;
  src_bytes = omega arith;
  dest_size = refl;
  dest_bytes = omega arith;
  len_fits = omega arith;
  seq_fits = omega arith;
  payload_size = omega (
    arith,
    length-append (take 44 payload) [],
    ap length (take-all 44 payload (omega arith)),
    size,
  );
  payload_bytes = IsBytes-append (take 44 payload) [] (IsBytes-take 44 payload bytes) tt;
  fcs_fits = omega arith;
}

-- Every trial starts from 65 bytes.
pub trial_frame_lem :
    (t : ℕ) (trial : Trial) → (length (trial_frame t trial) ≡ 65) × IsBytes (trial_frame t trial)
unfolding trial_frame
trial_frame_lem t trial =
    let (size, bytes) = random_payload_lem trial.payload_rand 44 in
    let fits = clean_frame-IsFrame (random_payload trial.payload_rand 44) t size bytes in
    (length-to_bytes fits, to_bytes-IsBytes fits)

pub crc_compute-some :
    (p : CrcGen) (bytes : List ℕ) (n : ℕ)
    → n ≤ length bytes
    → (c : ℕ) × (crc_compute bytes n p ≡ some c)
crc_compute-some p bytes n h =
    let (c, d, one, two, both) = crc_compute-xor_bytes p bytes bytes n h h in (c, one)

-- A verdict is on the CRC of the changed bytes.
pub crc_verify-some :
    (p : CrcGen) (bytes : List ℕ) (n c received : ℕ)
    → crc_compute bytes n p ≡ some c
    → crc_verify bytes n p received ≡ some (c == received)
unfolding crc_verify
crc_verify-some p bytes n c received e = rw e refl

module _ (p : CrcGen) (clean changed : List ℕ) (size : 62 ≤ length clean) (bytes : IsBytes clean)
    (size' : 62 ≤ length changed) (bytes' : IsBytes changed) where
  caught_lem :
      (c d : ℕ)
      → crc_compute clean 61 p ≡ some c
      → crc_compute changed 61 p ≡ some d
      → caught p clean changed
        ≡ some
            (not (ones (total changed 61 + (65535 - ones (total clean 61))) == 65535), not (d == c))
  unfolding caught
  caught_lem c d e f =
      rw
        (
          compute-ones clean 61 bytes size,
          e,
          verify-ones changed 61 (65535 - ones (total clean 61)) bytes' size' (omega arith),
          crc_verify-some p changed 61 d c f,
        )
        refl

  accepted_lem :
      checksum16_compute changed 61 ≡ checksum16_compute clean 61
      → (ones (total changed 61 + (65535 - ones (total clean 61))) == 65535) ≡ true
  accepted_lem same = some_inj.0 (
      sym (verify-ones changed 61 (65535 - ones (total clean 61)) bytes' size' (omega arith))
      ∙ (verify_iff changed 61 (65535 - ones (total clean 61)) bytes' size' (omega arith)).1
          (inl (same ∙ compute-ones clean 61 bytes size)))

  caught-crc :
      crc_compute changed 61 p ≡ crc_compute clean 61 p
      → (a : Bool) × (caught p clean changed ≡ some (a, false))
  caught-crc same =
      let (c, e) = crc_compute-some p clean 61 (omega arith) in
      let equal : (c == c) ≡ true = (==_iff c c).1 refl in
      (
        not (ones (total changed 61 + (65535 - ones (total clean 61))) == 65535),
        caught_lem c c e (same ∙ e) ∙ rw equal refl,
      )

  caught-checksum :
      checksum16_compute changed 61 ≡ checksum16_compute clean 61
      → (b : Bool) × (caught p clean changed ≡ some (false, b))
  caught-checksum same =
      let (c, e) = crc_compute-some p clean 61 (omega arith) in
      let (d, f) = crc_compute-some p changed 61 (omega arith) in
      let accepted : (ones (total changed 61 + (65535 - ones (total clean 61))) == 65535) ≡ true =
        accepted_lem same in
      (not (d == c), caught_lem c d e f ∙ rw accepted refl)

-- A compensating error is never caught by the checksum.
pub compensating_trial-some :
    (p : CrcGen) (t : ℕ) (trial : Trial) {a b : Bool}
    → compensating_trial p t trial ≡ some (a, b)
    → a ≡ false
unfolding compensating_trial
compensating_trial-some p t trial {a} {b} e =
    let (size, bytes) = trial_frame_lem t trial in
    let (changed, made, done) =
      bind-some (inject_compensating_error trial.error_rands (trial_frame t trial) 61) _ e in
    let (bytes', size') =
      inject_compensating_error-IsBytes trial.error_rands (trial_frame t trial) 61 (omega arith)
        bytes (omega arith) made in
    let (ne, same) =
      inject_compensating_error-compute trial.error_rands (trial_frame t trial) 61 (omega arith)
        bytes (omega arith) made in
    let (b', known) =
      caught-checksum p (trial_frame t trial) changed (omega arith) bytes (omega arith) bytes'
        same in
    ap (λ r. r.0) (some_inj.0 (sym done ∙ known))

degree_lem : (scheme : Scheme) → IsCrc scheme → ((crc_generator scheme).degree + 8) / 8 ≤ 61
unfolding crc_generator
degree_lem checksum16 crc = absurd crc
degree_lem crc8 crc = omega arith
degree_lem crc10 crc = omega arith
degree_lem crc16 crc = omega arith
degree_lem crc32 crc = omega arith

-- A multiple of the generator is never caught by the CRC.
pub multiple_trial-some :
    (scheme : Scheme) (t : ℕ) (trial : Trial)
    → IsCrc scheme
    → (a : Bool) × (multiple_trial (crc_generator scheme) t trial ≡ some (a, false))
unfolding multiple_trial
multiple_trial-some scheme t trial crc =
    let (size, bytes) = trial_frame_lem t trial in
    let (bytes', size') =
      inject_generator_multiple_error-IsBytes (crc_generator scheme) (trial_frame t trial) 61
        bytes in
    caught-crc (crc_generator scheme) (trial_frame t trial) _ (omega arith) bytes (omega arith)
      bytes'
      (inject_generator_multiple_error-compute scheme (trial_frame t trial) 61 crc
        (degree_lem scheme crc) (omega arith)).1
