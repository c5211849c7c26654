-- ===== src/Lab2/Eval/Tests.antt =====
-- lab2/eval/eval_main.c: a trial, and the comparison of two files.
use network_lab.Prelude.{ℕ, ◌+◌, ◌*◌, ◌≡◌, refl, inr, true, none, some, List, [], ◌∷◌}
use network_lab.Lab2.Arq.{zero_stats}
use network_lab.Lab2.Channel.{ChannelStats}
use network_lab.Lab2.StopAndWait.Sender.{finished}
use network_lab.Lab2.StopAndWait.System.{System, start, Reach}
use network_lab.Lab2.StopAndWait.Lossless.{Reach-finished}
use network_lab.Lab2.Run.{arq_sw, sender_run, receiver_run, sender_dispatch, receiver_dispatch}
use network_lab.Lab2.Run.Transfer.{Transferred, over_sw}
use network_lab.Lab2.Eval.{
  write_chunks, generate_input_file, same_bytes, files_equal, trial_config, TrialRow, run_trial,
}
use network_lab.Lab2.Eval.Input.{generate_input_file-IsBytes}
use network_lab.Lab2.Eval.Correct.{run_trial-correct}

files_differ : files_equal (some (1 ∷ 2 ∷ [])) (some (1 ∷ 3 ∷ [])) 2 ≡ 0
unfolding files_equal same_bytes
files_differ = refl

file_missing : files_equal (some (1 ∷ [])) none 1 ≡ 0
unfolding files_equal
file_missing = refl

abbrev rand : ℕ → ℕ
rand i = 300 * i + 7

abbrev written : List ℕ
written = write_chunks 384 rand 0 384

written_run : generate_input_file true rand 384 ≡ some written
unfolding generate_input_file
written_run = refl

abbrev stats : ChannelStats
stats = record { frames_sent = 0; frames_lost = 0; frames_corrupted = 0 }

whole : (s : System) × Reach written start s × (s.tx.phase ≡ finished) × (s.rx.output ≡ written)
whole = Reach-finished written (generate_input_file-IsBytes rand 384 written_run).1

transferred :
    Transferred
      (sender_run (trial_config arq_sw 1 3) (some written))
      (receiver_run (trial_config arq_sw 1 4) (some 5))
      whole.0.rx.output
unfolding sender_run receiver_run sender_dispatch receiver_dispatch trial_config
transferred = over_sw whole.1 (inr whole.2)

-- The first mode, in a run without losses.
run_trial-correct_example :
    (row : TrialRow) × (run_trial 0 1
        (some (3, 4))
        zero_stats
        9
        stats
        (some written)
        (some whole.0.rx.output)
      ≡ some row)
    × (row.correct ≡ 1)
run_trial-correct_example =
    run_trial-correct 0 1 3 4 5 rand whole.0.rx.output zero_stats 9 stats written_run refl refl
      transferred
