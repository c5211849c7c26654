-- ===== src/Lab1/Perf.antt =====
-- lab1/perf_analysis/perf_analyzer.c: how many frames the analyser processes. The readings of the
-- clock and the results of `rand()` are arguments.
pub mod Ends
mod Tests
use Prim.Native.String.{String}
use network_lab.Prelude.{
  ℕ, zero, suc, ◌+◌, ◌-◌, ◌*◌, ◌%◌, ◌^◌, bit_and, Option, none, some, List, [], ◌∷◌, u64, leb,
  if◌then◌else◌, ◌>>=◌,
}
use network_lab.Lab1.Frame.{frame_size, trailer_size}
use network_lab.Lab1.Scheme.{Scheme, compute_fcs}
use network_lab.Lab1.Scheme.Names.{scheme_name_str}

-- `perf_result_t`, with the elapsed time in nanoseconds, as it is measured, and without the
-- floating-point quotients.
pub record PerfResult : Type 0 where
  pub scheme : Scheme
  pub scheme_name : String
  pub frames_processed : ℕ
  pub bytes_processed : ℕ
  pub elapsed_nanos : ℕ

-- A frame of random bytes, where `rand j` is the result for byte `j`.
unfoldable pub random_frame : (ℕ → ℕ) → ℕ → List ℕ
random_frame rand zero = []
random_frame rand (suc size) = bit_and (rand 0) 0xff ∷ random_frame (λ j. rand (suc j)) size

-- `count` frames, after the `frames` before them; `rand i` is for frame `i`. `none` is a read outside a
-- frame.
unfoldable pub batch : Scheme → (ℕ → ℕ → ℕ) → ℕ → ℕ → Option ℕ
batch scheme rand zero frames = some frames
batch scheme rand (suc count) frames = do
  fcs ← compute_fcs scheme (random_frame (rand frames) frame_size) (frame_size - trailer_size)
  batch scheme rand count (u64 (frames + 1))

-- The loop, with the readings of the clock to come: the frames and the last reading. `none` is also a
-- loop that has not ended with these readings.
unfoldable pub perf_loop : Scheme → (ℕ → ℕ → ℕ) → ℕ → List ℕ → ℕ → Option (ℕ × ℕ)
perf_loop scheme rand target_end [] frames = none
perf_loop scheme rand target_end (end_nanos ∷ readings) frames = do
  frames' ← batch scheme rand 100 frames
  let more = perf_loop scheme rand target_end readings frames'
  if leb target_end end_nanos then some (frames', end_nanos) else more

-- The first reading is the start. The duration is in nanoseconds.
unfoldable pub perf_analyze_scheme : Scheme → ℕ → (ℕ → ℕ → ℕ) → List ℕ → Option PerfResult
perf_analyze_scheme scheme duration_nanos rand [] = none
perf_analyze_scheme scheme duration_nanos rand (start_nanos ∷ readings) = do
  (frames, end_nanos) ← perf_loop scheme rand (u64 (start_nanos + duration_nanos)) readings 0
  some (record {
    scheme = scheme;
    scheme_name = scheme_name_str scheme;
    frames_processed = frames;
    bytes_processed = u64 (frames * frame_size);
    elapsed_nanos = u64 (end_nanos + 2 ^ 64 - start_nanos);
  })
