-- ===== src/Lab2/Run.antt =====
-- lab2/arq/sender.c, lab2/arq/receiver.c: `sender_run` and `receiver_run` up to the protocol that they
-- enter.
pub mod Transfer
mod Tests
use network_lab.Prelude.{ℕ, Option, none, some, List}

-- `arq_mode_t`; a value that is none of these is `unknown_mode`.
pub data ArqMode : Type 0 where
  arq_sw arq_gbn arq_sr unknown_mode : ArqMode

-- `arq_config_t`, as far as the two functions read it. The descriptor is `none` when it is negative.
pub record ArqConfig : Type 0 where
  pub mode : ArqMode
  pub window_size : ℕ
  pub socket_fd : Option ℕ

-- What `sender_run` does: it returns -1 at once, or enters a protocol with the bytes of the file and
-- the window size of the configuration.
pub data SenderRun : Type 0 where
  sender_refuses : SenderRun
  sender_sw_mode : List ℕ → SenderRun
  sender_gbn_mode : List ℕ → ℕ → SenderRun
  sender_sr_mode : List ℕ → ℕ → SenderRun

unfoldable pub sender_dispatch : ArqMode → List ℕ → ℕ → SenderRun
sender_dispatch arq_sw data_ window_size = sender_sw_mode data_
sender_dispatch arq_gbn data_ window_size = sender_gbn_mode data_ window_size
sender_dispatch arq_sr data_ window_size = sender_sr_mode data_ window_size
sender_dispatch unknown_mode data_ window_size = sender_refuses

-- The second argument is what `read_file` returns, `none` for NULL.
unfoldable pub sender_run : ArqConfig → Option (List ℕ) → SenderRun
sender_run config none = sender_refuses
sender_run config (some data_) = elim config.socket_fd [
  | none ↦ sender_refuses
  | some fd ↦ sender_dispatch config.mode data_ config.window_size
]

pub data ReceiverRun : Type 0 where
  receiver_refuses : ReceiverRun
  receiver_sw_mode : ReceiverRun
  receiver_gbn_mode : ReceiverRun
  receiver_sr_mode : ℕ → ReceiverRun

unfoldable pub receiver_dispatch : ArqMode → ℕ → ReceiverRun
receiver_dispatch arq_sw window_size = receiver_sw_mode
receiver_dispatch arq_gbn window_size = receiver_gbn_mode
receiver_dispatch arq_sr window_size = receiver_sr_mode window_size
receiver_dispatch unknown_mode window_size = receiver_refuses

-- The second argument is the descriptor of the output file, `none` when `fopen` fails.
unfoldable pub receiver_run : ArqConfig → Option ℕ → ReceiverRun
receiver_run config none = receiver_refuses
receiver_run config (some output) = elim config.socket_fd [
  | none ↦ receiver_refuses
  | some fd ↦ receiver_dispatch config.mode config.window_size
]
