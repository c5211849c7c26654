-- ===== src/Lab2/Run/Transfer.antt =====
-- lab2: a whole transfer, from the two configurations to the output file.
use network_lab.Prelude.{
  ℕ, ◌*◌, ◌≤◌, ◌≡◌, refl, ◌∙◌, ◌⊎◌, true, some, List, length, Option-cases, inl, inr, arith,
}
use network_lab.Lab1.Checksum.Sum.{IsBytes}
use network_lab.Lab2.Run.{
  SenderRun, sender_refuses, sender_sw_mode, sender_gbn_mode, sender_sr_mode, ReceiverRun,
  receiver_sw_mode, receiver_gbn_mode, receiver_sr_mode, ArqConfig, ArqMode, arq_sw, arq_gbn,
  arq_sr, unknown_mode, sender_run, receiver_run, sender_dispatch, receiver_dispatch,
}
use network_lab.Lab2.Arq.Window
use network_lab.Lab2.StopAndWait.Sender as Sw
use network_lab.Lab2.StopAndWait.System as SwSystem
use network_lab.Lab2.StopAndWait.Safety.{written-file}
use network_lab.Lab2.GoBackN.System as GbnSystem
use network_lab.Lab2.GoBackN.Safety.{output-file}
use network_lab.Lab2.SelectiveRepeat.System as SrSystem
use network_lab.Lab2.SelectiveRepeat.Safety.{delivered-file}

-- The mode whose protocol a sender has entered.
abbrev pub protocol : SenderRun → ArqMode
protocol sender_refuses = unknown_mode
protocol (sender_sw_mode data_) = arq_sw
protocol (sender_gbn_mode data_ window_size) = arq_gbn
protocol (sender_sr_mode data_ window_size) = arq_sr

-- The output of a transfer that is over on one side, for a sender and a receiver that have entered
-- the same protocol.
pub data Transferred : SenderRun → ReceiverRun → List ℕ → Type 0 where
  over_sw :
      {file : List ℕ} {s : SwSystem.System}
      → SwSystem.Reach file SwSystem.start s
      → (s.rx.stopped ≡ true) ⊎ (s.tx.phase ≡ Sw.finished)
      → Transferred (sender_sw_mode file) receiver_sw_mode s.rx.output
  over_gbn :
      {file : List ℕ} {window_size : ℕ} {s : GbnSystem.System}
      → GbnSystem.Reach file (GbnSystem.start window_size) s
      → (s.rx.stopped ≡ true) ⊎ (s.tx.phase ≡ Window.finished)
      → Transferred (sender_gbn_mode file window_size) receiver_gbn_mode s.rx.output
  over_sr :
      {file : List ℕ} {window_size : ℕ} {s : SrSystem.System}
      → SrSystem.Reach window_size file (SrSystem.start window_size) s
      → (s.rx.stopped ≡ true) ⊎ (s.tx.phase ≡ Window.finished)
      → Transferred (sender_sr_mode file window_size) (receiver_sr_mode window_size) s.rx.output

module _ (file : List ℕ) (bytes : IsBytes file) (small : length file ≤ 44 * 65534) where
  dispatch-file :
      (mode : ArqMode) (window_size : ℕ) {run : ReceiverRun} {output : List ℕ}
      → 1 ≤ window_size
      → window_size ≤ 8
      → Transferred (sender_dispatch mode file window_size) run output
      → output ≡ file
  unfolding sender_dispatch
  dispatch-file arq_sw w at_least at_most (over_sw r over) = written-file file bytes r over
  dispatch-file arq_gbn w at_least at_most (over_gbn r over) =
      output-file file bytes small w at_least at_most r over
  dispatch-file arq_sr w at_least at_most (over_sr r over) =
      delivered-file w (omega arith) file bytes small at_least r over
  dispatch-file unknown_mode w at_least at_most t = elim t [ ]

  pub Transferred-file :
      (config : ArqConfig) {run : ReceiverRun} (output : List ℕ)
      → 1 ≤ config.window_size
      → config.window_size ≤ 8
      → Transferred (sender_run config (some file)) run output
      → output ≡ file
  unfolding sender_run
  Transferred-file config output at_least at_most t = elim (Option-cases config.socket_fd) [
    | inl invalid ↦ elim (rw invalid at t) [ ]
    | inr (fd, valid) ↦
        dispatch-file config.mode config.window_size at_least at_most (rw valid at t)
  ]

  dispatch-same :
      (mode : ArqMode) (window_size : ℕ) {run : ReceiverRun} {output : List ℕ}
      → Transferred (sender_dispatch mode file window_size) run output
      → (receiver_dispatch mode window_size ≡ run)
        × (protocol (sender_dispatch mode file window_size) ≡ mode)
  unfolding sender_dispatch receiver_dispatch
  dispatch-same arq_sw w (over_sw r over) = (refl, refl)
  dispatch-same arq_gbn w (over_gbn r over) = (refl, refl)
  dispatch-same arq_sr w (over_sr r over) = (refl, refl)
  dispatch-same unknown_mode w t = elim t [ ]

  run-same :
      (config : ArqConfig) {run : ReceiverRun} {output : List ℕ}
      → Transferred (sender_run config (some file)) run output
      → (receiver_dispatch config.mode config.window_size ≡ run)
        × (protocol (sender_run config (some file)) ≡ config.mode)
  unfolding sender_run
  run-same config t = elim (Option-cases config.socket_fd) [
    | inl invalid ↦ elim (rw invalid at t) [ ]
    | inr (fd, valid) ↦ rw valid (dispatch-same config.mode config.window_size (rw valid at t))
  ]

  -- A file of bytes, at most 65534 full frames long, a window size from 1 to 8, and two configurations
  -- with the same mode and window size, the receiver's with a descriptor: when the protocol that
  -- `sender_run` enters with the file has been run, over channels that lose frames and flip one bit in
  -- some of them, against the receiver of that protocol, until that has stopped or the sender has
  -- returned 0, then the protocol is that of the mode, its receiver is the one that `receiver_run`
  -- enters with the other configuration, and the output file is exactly the file that was read.
  pub sender_run-file :
      (config config' : ArqConfig) (fd output_fd : ℕ) {run : ReceiverRun} (output : List ℕ)
      → 1 ≤ config.window_size
      → config.window_size ≤ 8
      → config'.mode ≡ config.mode
      → config'.window_size ≡ config.window_size
      → config'.socket_fd ≡ some fd
      → Transferred (sender_run config (some file)) run output
      → (protocol (sender_run config (some file)) ≡ config.mode)
        × (receiver_run config' (some output_fd) ≡ run)
        × (output ≡ file)
  sender_run-file config config' fd output_fd {run} output at_least at_most mode size valid t =
      let (enters, named) = run-same config t in
      (named, entered ∙ enters, Transferred-file config output at_least at_most t)
    where
      entered :
          receiver_run config' (some output_fd) ≡ receiver_dispatch config.mode config.window_size
      entered = unfold receiver_run in rw (valid, mode, size) refl
