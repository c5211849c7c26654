-- ===== src/Lab2/Eval.antt =====
-- lab2/eval/eval_main.c: the trials of the three protocols. The results of `rand()`, what the files
-- hold and the descriptors are arguments; times, and the printed shares of them, are left out.
pub mod Input
pub mod Correct
mod Tests
use network_lab.Prelude.{
  ℕ, zero, suc, ◌+◌, ◌-◌, ◌*◌, bit_and, Bool, true, false, ◌&&◌, Option, none, some, List, [], ◌∷◌,
  ◌++◌, map, length, get_elem?, ltb, ◌==◌, if◌then◌else◌, ◌>>=◌,
}
use network_lab.Lab2.Arq.{ArqStats}
use network_lab.Lab2.Channel.{ChannelStats}
use network_lab.Lab2.Run.{ArqMode, arq_sw, arq_gbn, arq_sr, ArqConfig}

abbrev pub modes : List ArqMode
modes = arq_sw ∷ arq_gbn ∷ arq_sr ∷ []

abbrev pub window_bits : List ℕ
window_bits = 1 ∷ 4 ∷ 4 ∷ []

abbrev pub input_size : ℕ
input_size = 384

abbrev pub buffer_size : ℕ
buffer_size = 4096

-- The loop that fills the buffer; `rand i` is the result for byte `i` of the file, and `at` the number
-- of the bytes before.
unfoldable pub fill_buffer : (ℕ → ℕ) → ℕ → ℕ → List ℕ
fill_buffer rand at zero = []
fill_buffer rand at (suc chunk) = bit_and (rand at) 0xff ∷ fill_buffer rand (at + 1) chunk

-- The loop of `generate_input_file`: the bytes that it writes. Each turn but the last fills a buffer,
-- so the number of bytes is fuel enough.
unfoldable pub write_chunks : ℕ → (ℕ → ℕ) → ℕ → ℕ → List ℕ
write_chunks zero rand at remaining = []
write_chunks (suc fuel) rand at remaining =
    let chunk = if ltb remaining buffer_size then remaining else buffer_size in
    let rest = write_chunks fuel rand (at + chunk) (remaining - chunk) in
    if ltb 0 remaining then fill_buffer rand at chunk ++ rest else []

-- What the file holds then; `none` is -1, when `fopen` has failed.
unfoldable pub generate_input_file : Bool → (ℕ → ℕ) → ℕ → Option (List ℕ)
generate_input_file opens rand size = if opens then some (write_chunks size rand 0 size) else none

-- `memcmp` of as many bytes gives 0.
unfoldable pub same_bytes : List ℕ → List ℕ → Bool
same_bytes [] [] = true
same_bytes [] (b ∷ data2) = false
same_bytes (a ∷ data1) [] = false
same_bytes (a ∷ data1) (b ∷ data2) = (a == b) && same_bytes data1 data2

-- `files_equal`, from what `read_file` gives for the two files.
unfoldable pub files_equal : Option (List ℕ) → Option (List ℕ) → ℕ → ℕ
files_equal none data2 expected_size = 0
files_equal (some data1) none expected_size = 0
files_equal (some data1) (some data2) expected_size =
    if (length data1 == length data2) && (length data1 == expected_size)
    then (if same_bytes data1 data2 then 1 else 0)
    else 0

-- The configuration of either side of trial `m`.
unfoldable pub trial_config : ArqMode → ℕ → ℕ → ArqConfig
trial_config mode bits fd = record { mode = mode; window_size = bits; socket_fd = some fd }

-- The row of a trial: all its columns but the probability, the times and their quotients.
pub record TrialRow : Type 0 where
  pub mode : ArqMode
  pub bits : ℕ
  pub trial_no : ℕ
  pub frames_sent : ℕ
  pub frames_retransmitted : ℕ
  pub acks_received : ℕ
  pub corrupted_count : ℕ
  pub frames_lost : ℕ
  pub frames_corrupted : ℕ
  pub correct : ℕ
  pub rtt_samples : ℕ

-- `run_trial`, from what `socketpair` gives, the counters at the end with the number of round trips
-- measured, and what `read_file` gives for the two files. `none` is -1, or a mode that is not in the tables.
unfoldable pub run_trial :
    ℕ
    → ℕ
    → Option (ℕ × ℕ)
    → ArqStats
    → ℕ
    → ChannelStats
    → Option (List ℕ)
    → Option (List ℕ)
    → Option TrialRow
run_trial m trial_no fds stats rtt_samples channel input output = do
  mode ← get_elem? modes m
  window ← get_elem? window_bits m
  (sender_fd, receiver_fd) ← fds
  some (record {
    mode = mode;
    bits = window;
    trial_no = trial_no;
    frames_sent = stats.frames_sent;
    frames_retransmitted = stats.frames_retransmitted;
    acks_received = stats.acks_received;
    corrupted_count = stats.corrupted_count;
    frames_lost = channel.frames_lost;
    frames_corrupted = channel.frames_corrupted;
    correct = files_equal input output input_size;
    rtt_samples = rtt_samples;
  })
