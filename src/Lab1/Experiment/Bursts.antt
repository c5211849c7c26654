-- ===== src/Lab1/Experiment/Bursts.antt =====
-- lab1/error_inject/eval_main.c: the bursts of the experiment with a generator's degree.
use network_lab.Prelude.{
  ℕ, zero, ◌+◌, ◌*◌, ◌/◌, ◌%◌, ◌^◌, ◌≤◌, bit_xor, ◌≡◌, ◌≢◌, refl, sym, ap, ◌∙◌, ◌⊎◌, inl, inr, Bool,
  true, false, not, Option, none, some, List, ◌++◌, length, length-append, length-replicate,
  replicate, ◌==◌, arith, run_table, run_table-entry,
}
use mathlib.Core.Option.{some_inj}
use mathlib.Core.Bool.{false≢true}
use network_lab.Bits.{bit_xor-cancel}
use network_lab.Lab1.Crc.{CrcGen, crc_bit, crc_bits, crc_byte, crc_loop, crc_compute, crc_verify}
use network_lab.Lab1.Crc.Linear.{crc_compute-xor_bytes}
use network_lab.Lab1.Crc.Live.{IsOdd, IsLive, crc_compute-IsLive}
use network_lab.Lab1.Scheme.{Scheme, checksum16, crc8, crc10, crc16, crc32, crc_generator}
use network_lab.Lab1.Inject.{flip_bit, flip_range, inject_burst_error}
use network_lab.Lab1.Inject.Burst.{burst, spot, length-burst}
use network_lab.Lab1.Inject.Spot.{inject_burst_error-spot}
use network_lab.Lab1.Target.Multiple.{IsCrc}
use network_lab.Lab1.Experiment.{Trial, trial_frame, burst_caught, burst_trial}
use network_lab.Lab1.Experiment.Trials.{trial_frame_lem, crc_compute-some, crc_verify-some}

crc_generator-IsOdd : (scheme : Scheme) → IsCrc scheme → IsOdd (crc_generator scheme)
unfolding crc_generator
crc_generator-IsOdd checksum16 crc = absurd crc
crc_generator-IsOdd crc8 crc = record { is_odd = refl; positive = omega arith; fits = omega arith }
crc_generator-IsOdd crc10 crc = record { is_odd = refl; positive = omega arith; fits = omega arith }
crc_generator-IsOdd crc16 crc = record { is_odd = refl; positive = omega arith; fits = omega arith }
crc_generator-IsOdd crc32 crc = record { is_odd = refl; positive = omega arith; fits = omega arith }

-- Whether a register has a bit below the degree.
abbrev alive : CrcGen → Option ℕ → Bool
alive p none = false
alive p (some crc) = not (crc % 2 ^ p.degree == 0)

alive-IsLive :
    (p : CrcGen) (o : Option ℕ) → alive p o ≡ true → (crc : ℕ) × (o ≡ some crc) × IsLive p crc
unfolding IsLive
alive-IsLive p none e = absurd (false≢true e)
alive-IsLive p (some crc) e = (crc, refl, λ gone. ground arith)

module _ (p : CrcGen) (burst_len : ℕ) where
  abbrev width : ℕ → ℕ
  width start = (start + burst_len + 7) / 8

  -- Whether the burst that starts at this bit of a byte leaves something in the register.
  spot_alive : ℕ → Bool
  spot_alive start = alive p (crc_loop p (spot start burst_len (width start)) (width start) 0)

spots_table :
    (scheme : Scheme)
    → IsCrc scheme
    → (run_table (spot_alive (crc_generator scheme) (crc_generator scheme).degree) 8 ≡ true)
      × (run_table (spot_alive (crc_generator scheme) ((crc_generator scheme).degree + 1)) 8 ≡ true)
unfolding run_table spot_alive crc_generator burst flip_range flip_bit crc_loop crc_byte crc_bits
    crc_bit
spots_table checksum16 crc = absurd crc
spots_table crc8 crc = (refl, refl)
spots_table crc10 crc = (refl, refl)
spots_table crc16 crc = (refl, refl)
spots_table crc32 crc = (refl, refl)

unequal : (a b : ℕ) → a ≢ b → (a == b) ≡ false
unequal a b h = ground arith

module _ (p : CrcGen) (odd : IsOdd p) (burst_len : ℕ) (two : 2 ≤ burst_len)
    (table : run_table (spot_alive p burst_len) 8 ≡ true) where
  -- A burst that leaves something wherever it starts in a byte changes the CRC.
  burst_lem :
      (rand : ℕ) (buf : List ℕ) (len : ℕ) {c : ℕ}
      → burst_len ≤ len * 8
      → len ≤ length buf
      → crc_compute buf len p ≡ some c
      → crc_verify (inject_burst_error rand buf len burst_len) len p c ≡ some false
  unfolding spot_alive
  burst_lem rand buf len {c} fits inside ran =
      let (q, start, m, h, room, all, made) =
        inject_burst_error-spot rand buf len burst_len two fits inside in
      let touched = spot start burst_len (width p burst_len start) in
      let wide : length touched ≡ width p burst_len start =
        length-burst start burst_len (replicate (width p burst_len start) 0)
          (width p burst_len start)
        ∙ length-replicate (width p burst_len start) zero in
      let (d, left, live) =
        alive-IsLive p (crc_loop p touched (width p burst_len start) 0)
          (run_table-entry (spot_alive p burst_len) 8 h table) in
      let pattern = replicate q 0 ++ (touched ++ replicate m 0) in
      let size : length pattern ≡ length buf = omega (
        arith,
        length-append (replicate q 0) (touched ++ replicate m 0),
        length-append touched (replicate m 0),
        length-replicate q zero,
        length-replicate m zero,
        wide,
        all,
      ) in
      let (e, found, e_ne) =
        crc_compute-IsLive p odd q touched m len (omega (arith, wide)) (omega (arith, wide, all))
          (ap (λ t. crc_loop p touched t 0) wide ∙ left) live in
      let (c', e', one, other, both) =
        crc_compute-xor_bytes p buf pattern len inside (omega (arith, size)) in
      let same : c' ≡ c = some_inj.0 (sym one ∙ ran) in
      let other_same : e' ≡ e = some_inj.0 (sym other ∙ found) in
      let differs : (bit_xor c' e' == c) ≡ false =
        unequal _ c (λ back. e_ne (sym other_same ∙ bit_xor-cancel c' e' (back ∙ sym same))) in
      crc_verify-some p _ len (bit_xor c' e') c (ap (λ b. crc_compute b len p) made ∙ both)
      ∙ ap some differs

crc_generator-degree :
    (scheme : Scheme)
    → IsCrc scheme
    → (2 ≤ (crc_generator scheme).degree) × ((crc_generator scheme).degree ≤ 32)
unfolding crc_generator
crc_generator-degree checksum16 crc = absurd crc
crc_generator-degree crc8 crc = omega arith
crc_generator-degree crc10 crc = omega arith
crc_generator-degree crc16 crc = omega arith
crc_generator-degree crc32 crc = omega arith

-- For each of the four CRCs, of degree r, and a buffer of which `len` bytes are covered: a burst of r
-- or of r + 1 bits that fits into them is noticed, wherever it starts.
pub inject_burst_error-crc_verify :
    (scheme : Scheme) (rand : ℕ) (buf : List ℕ) (len burst_len : ℕ) {c : ℕ}
    → IsCrc scheme
    → (burst_len ≡ (crc_generator scheme).degree) ⊎ (burst_len ≡ (crc_generator scheme).degree + 1)
    → burst_len ≤ len * 8
    → len ≤ length buf
    → crc_compute buf len (crc_generator scheme) ≡ some c
    → crc_verify (inject_burst_error rand buf len burst_len) len (crc_generator scheme) c
      ≡ some false
inject_burst_error-crc_verify scheme rand buf len burst_len crc boundary fits inside ran =
    burst_lem p (crc_generator-IsOdd scheme crc) burst_len two (table boundary) rand buf len fits
      inside ran
  where
    p : CrcGen
    p = crc_generator scheme

    two : 2 ≤ burst_len
    two = elim boundary [
      | inl e ↦ omega (arith, crc_generator-degree scheme crc)
      | inr e ↦ omega (arith, crc_generator-degree scheme crc)
    ]

    table :
        (burst_len ≡ p.degree) ⊎ (burst_len ≡ p.degree + 1)
        → run_table (spot_alive p burst_len) 8 ≡ true
    table (inl e) = rw e (spots_table scheme crc).0
    table (inr e) = rw e (spots_table scheme crc).1

-- A burst of either length is noticed.
burst_caught-some :
    (scheme : Scheme) (t : ℕ) (trial : Trial) (rand burst_len : ℕ)
    → IsCrc scheme
    → (burst_len ≡ (crc_generator scheme).degree) ⊎ (burst_len ≡ (crc_generator scheme).degree + 1)
    → burst_caught (crc_generator scheme) (trial_frame t trial) rand burst_len ≡ some true
unfolding burst_caught
burst_caught-some scheme t trial rand burst_len crc boundary =
    let p = crc_generator scheme in
    let clean = trial_frame t trial in
    let (size, bytes) = trial_frame_lem t trial in
    let (c, ran) = crc_compute-some p clean 61 (omega arith) in
    let fits : burst_len ≤ 61 * 8 = elim boundary [
      | inl e ↦ omega (arith, crc_generator-degree scheme crc)
      | inr e ↦ omega (arith, crc_generator-degree scheme crc)
    ] in
    rw
      (
        ran,
        inject_burst_error-crc_verify scheme rand clean 61 burst_len crc boundary fits (omega arith)
            ran,
      )
      refl

pub burst_trial-some :
    (scheme : Scheme) (t : ℕ) (trial : Trial)
    → IsCrc scheme
    → burst_trial (crc_generator scheme) t trial ≡ some (true, true)
unfolding burst_trial
burst_trial-some scheme t trial crc =
    let p = crc_generator scheme in
    rw
      (
        burst_caught-some scheme t trial trial.first_burst_rand p.degree crc (inl refl),
        burst_caught-some scheme t trial trial.second_burst_rand (p.degree + 1) crc (inr refl),
      )
      refl
