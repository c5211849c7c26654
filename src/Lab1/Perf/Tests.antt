-- ===== src/Lab1/Perf/Tests.antt =====
-- lab1/perf_analysis/perf_analyzer.c: a run with two batches.
use network_lab.Prelude.{ℕ, ◌+◌, ◌*◌, ◌≡◌, some, [], ◌∷◌, arith}
use network_lab.Lab1.Scheme.{crc32}
use network_lab.Lab1.Scheme.Names.{scheme_name_str}
use network_lab.Lab1.Perf.{perf_analyze_scheme}
use network_lab.Lab1.Perf.Ends.{perf_analyze_scheme-some}

abbrev bytes : ℕ → ℕ → ℕ
bytes i j = 7 * i + j

-- The clock is read at the start, before the end and behind it.
perf_analyze_scheme-some_example :
    perf_analyze_scheme crc32 500 bytes (1000 ∷ 1200 ∷ 1600 ∷ 1800 ∷ [])
    ≡ some (record {
      scheme = crc32;
      scheme_name = scheme_name_str crc32;
      frames_processed = 200;
      bytes_processed = 13000;
      elapsed_nanos = 600;
    })
perf_analyze_scheme-some_example =
    perf_analyze_scheme-some crc32 bytes 500 1000 (1200 ∷ []) (1800 ∷ []) 1600 (omega arith)
      (omega arith) (omega arith) (omega arith, tt) (omega arith)
