-- ===== src/Lab1/Perf/Ends.antt =====
-- lab1/perf_analysis/perf_analyzer.c: when the loop ends, and what it has counted then.
use network_lab.Prelude.{
  ℕ, zero, suc, ◌+◌, ◌-◌, ◌*◌, ◌^◌, ◌≤◌, ◌<◌, ◌≡◌, refl, ap, ◌∙◌, true, false, some, List, [], ◌∷◌,
  ◌++◌, length, u64, leb, All, arith,
}
use network_lab.Bits.{bit_and_mask}
use network_lab.Lab1.Checksum.Sum.{IsBytes, compute-ones, ones, total}
use network_lab.Lab1.Scheme.{
  Scheme, checksum16, crc8, crc10, crc16, crc32, crc_generator, compute_fcs,
}
use network_lab.Lab1.Scheme.Names.{scheme_name_str}
use network_lab.Lab1.Perf.{random_frame, batch, perf_loop, perf_analyze_scheme}
use network_lab.Lab1.Experiment.Trials.{crc_compute-some}

random_frame_lem :
    (rand : ℕ → ℕ) (size : ℕ)
    → (length (random_frame rand size) ≡ size) × IsBytes (random_frame rand size)
unfolding random_frame
random_frame_lem rand zero = (refl, tt)
random_frame_lem rand (suc size) =
    let (long, bytes) = random_frame_lem (λ j. rand (suc j)) size in
    (ap suc long, (omega (arith, bit_and_mask 8 (rand 0)), bytes))

-- Every scheme reads inside a frame of 65 bytes.
compute_fcs-some :
    (scheme : Scheme) (bytes : List ℕ)
    → length bytes ≡ 65
    → IsBytes bytes
    → (fcs : ℕ) × (compute_fcs scheme bytes 61 ≡ some fcs)
unfolding compute_fcs
compute_fcs-some checksum16 bytes size b =
    (65535 - ones (total bytes 61), compute-ones bytes 61 b (omega arith))
compute_fcs-some crc8 bytes size b = crc_compute-some (crc_generator crc8) bytes 61 (omega arith)
compute_fcs-some crc10 bytes size b = crc_compute-some (crc_generator crc10) bytes 61 (omega arith)
compute_fcs-some crc16 bytes size b = crc_compute-some (crc_generator crc16) bytes 61 (omega arith)
compute_fcs-some crc32 bytes size b = crc_compute-some (crc_generator crc32) bytes 61 (omega arith)

module _ (scheme : Scheme) (rand : ℕ → ℕ → ℕ) where
  batch-some :
      (count frames : ℕ)
      → frames + count < 2 ^ 64
      → batch scheme rand count frames ≡ some (frames + count)
  unfolding batch
  batch-some zero frames fits = ap some (omega arith)
  batch-some (suc count) frames fits =
      let (size, bytes) = random_frame_lem (rand frames) 65 in
      let (fcs, computed) = compute_fcs-some scheme (random_frame (rand frames) 65) size bytes in
      let next : u64 (frames + 1) ≡ frames + 1 = omega arith in
      rw (computed, next) (batch-some count (frames + 1) (omega arith) ∙ ap some (omega arith))

  perf_loop-some :
      (target_end : ℕ) (before after : List ℕ) (last frames : ℕ)
      → All (λ reading. reading < target_end) before
      → target_end ≤ last
      → frames + 100 * (length before + 1) < 2 ^ 64
      → perf_loop scheme rand target_end (before ++ last ∷ after) frames
        ≡ some (frames + 100 * (length before + 1), last)
  unfolding perf_loop
  perf_loop-some target_end [] after last frames early late fits =
      let over : leb target_end last ≡ true = ground arith in
      let done : frames + 100 ≡ frames + 100 * (0 + 1) = omega arith in
      rw (batch-some 100 frames (omega arith), over, done) refl
  perf_loop-some target_end (reading ∷ before) after last frames early late fits =
      let on : leb target_end reading ≡ false = ground (arith, early.0) in
      let all : frames + 100 + 100 * (length before + 1)
          ≡ frames + 100 * (suc (length before) + 1) =
        omega arith in
      rw (batch-some 100 frames (omega arith), on)
        (perf_loop-some target_end before after last (frames + 100) early.1 late (omega arith)
          ∙ ap (λ n. some (n, last)) all)

-- When the duration after the start and the readings fit 64 bits: `perf_analyze_scheme` ends at the
-- first reading of the clock that is not before the end of the duration. Under every scheme it reads
-- inside its frames, and it has then processed 100 frames for each reading behind the start and 65
-- bytes for each frame. What it gives as elapsed is the time from the start to that reading.
pub perf_analyze_scheme-some :
    (scheme : Scheme) (rand : ℕ → ℕ → ℕ) (duration start : ℕ) (before after : List ℕ) (last : ℕ)
    → start + duration < 2 ^ 64
    → last < 2 ^ 64
    → 6500 * (length before + 1) < 2 ^ 64
    → All (λ reading. reading < start + duration) before
    → start + duration ≤ last
    → perf_analyze_scheme scheme duration rand (start ∷ before ++ last ∷ after)
      ≡ some (record {
        scheme = scheme;
        scheme_name = scheme_name_str scheme;
        frames_processed = 100 * (length before + 1);
        bytes_processed = 65 * (100 * (length before + 1));
        elapsed_nanos = last - start;
      })
unfolding perf_analyze_scheme
perf_analyze_scheme-some scheme rand duration start before after last fits short small early late =
    let target : u64 (start + duration) ≡ start + duration = omega arith in
    let frames : 0 + 100 * (length before + 1) ≡ 100 * (length before + 1) = omega arith in
    let bytes : u64 (100 * (length before + 1) * 65) ≡ 65 * (100 * (length before + 1)) =
      omega arith in
    let elapsed : u64 (last + 2 ^ 64 - start) ≡ last - start = omega arith in
    rw
      (
        target,
        perf_loop-some scheme rand (start + duration) before after last 0 early late (omega arith),
        frames,
        bytes,
        elapsed,
      )
      refl
