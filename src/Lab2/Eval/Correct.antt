-- ===== src/Lab2/Eval/Correct.antt =====
-- lab2/eval/eval_main.c: what the column `correct` of the results says.
use network_lab.Prelude.{
  ℕ, zero, suc, ◌≤◌, ◌≡◌, refl, sym, ap, ◌∙◌, true, some, List, [], ◌∷◌, length, get_elem?, arith,
  ◌==◌, ==_iff,
}
use mathlib.Core.Option.{some_inj, none-ne-some}
use network_lab.Lab2.Arq.{ArqStats}
use network_lab.Lab2.Channel.{ChannelStats}
use network_lab.Lab2.Run.{ArqMode, sender_run, receiver_run}
use network_lab.Lab2.Run.Transfer.{Transferred, Transferred-file}
use network_lab.Lab2.Eval.{
  modes, window_bits, generate_input_file, same_bytes, files_equal, trial_config, TrialRow,
  run_trial,
}
use network_lab.Lab2.Eval.Input.{generate_input_file-IsBytes}

same_bytes_lem : (data_ : List ℕ) → same_bytes data_ data_ ≡ true
unfolding same_bytes
same_bytes_lem [] = refl
same_bytes_lem (a ∷ data_) =
    let same : (a == a) ≡ true = (==_iff a a).1 refl in rw same (same_bytes_lem data_)

files_equal_lem : (data_ : List ℕ) → files_equal (some data_) (some data_) (length data_) ≡ 1
unfolding files_equal
files_equal_lem data_ =
    let same : (length data_ == length data_) ≡ true = (==_iff _ _).1 refl in
    rw (same, same_bytes_lem data_) refl

window_bits_lem : (m : ℕ) {bits : ℕ} → get_elem? window_bits m ≡ some bits → (1 ≤ bits) × (bits ≤ 8)
window_bits_lem zero e = rw (sym (some_inj.0 e)) (omega arith)
window_bits_lem (suc zero) e = rw (sym (some_inj.0 e)) (omega arith)
window_bits_lem (suc (suc zero)) e = rw (sym (some_inj.0 e)) (omega arith)
window_bits_lem (suc (suc (suc m))) e = absurd (none-ne-some _ e)

-- The file that `generate_input_file` has written with 384 bytes, sent in trial `m` of the three: when
-- the sockets are there and the transfer between the two configurations of that trial is over, in the
-- receiver or in the sender, over channels that lose frames and flip one bit in some of them, and
-- both files can be read, then the trial has a row, and its column `correct` is 1.
pub run_trial-correct :
    (m trial_no sender_fd receiver_fd output_fd : ℕ) (rand : ℕ → ℕ) {file : List ℕ} {mode : ArqMode}
    {bits : ℕ} (output : List ℕ) (stats : ArqStats) (rtt_samples : ℕ) (channel : ChannelStats)
    → generate_input_file true rand 384 ≡ some file
    → get_elem? modes m ≡ some mode
    → get_elem? window_bits m ≡ some bits
    → Transferred
        (sender_run (trial_config mode bits sender_fd) (some file))
        (receiver_run (trial_config mode bits receiver_fd) (some output_fd))
        output
    → (row : TrialRow) × (run_trial m trial_no
          (some (sender_fd, receiver_fd))
          stats
          rtt_samples
          channel
          (some file)
          (some output)
        ≡ some row)
      × (row.correct ≡ 1)
unfolding run_trial trial_config
run_trial-correct m trial_no sender_fd receiver_fd output_fd rand {file} {mode} {bits} output stats
      rtt_samples channel written in_modes in_bits over =
    let (size, bytes) = generate_input_file-IsBytes rand 384 written in
    let (at_least, at_most) = window_bits_lem m in_bits in
    let arrived : output ≡ file =
      Transferred-file file bytes (omega (arith, size)) (trial_config mode bits sender_fd) output
        at_least at_most over in
    (
      record {
        mode = mode;
        bits = bits;
        trial_no = trial_no;
        frames_sent = stats.frames_sent;
        frames_retransmitted = stats.frames_retransmitted;
        acks_received = stats.acks_received;
        corrupted_count = stats.corrupted_count;
        frames_lost = channel.frames_lost;
        frames_corrupted = channel.frames_corrupted;
        correct = files_equal (some file) (some output) 384;
        rtt_samples = rtt_samples;
      },
      rw (in_modes, in_bits) refl,
      ap (λ o. files_equal (some file) (some o) 384) arrived
          ∙ ap (files_equal (some file) (some file)) (sym size)
          ∙ files_equal_lem file,
    )
