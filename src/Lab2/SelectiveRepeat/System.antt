-- ===== src/Lab2/SelectiveRepeat/System.antt =====
-- lab2: a Selective Repeat sender and receiver joined by two channels, each a stream socket that
-- keeps the order of the frames written to it.
use network_lab.Prelude.{ℕ, false, ◌≡◌, List, [], ◌∷◌, ◌++◌}
use network_lab.Lab2.Channel.{Carries}
use network_lab.Lab2.Arq.{Select}
use network_lab.Lab2.Arq.Calls.{sends}
use network_lab.Lab2.Arq.Reports.{Reports}
use network_lab.Lab2.SelectiveRepeat.Sender
use network_lab.Lab2.SelectiveRepeat.Sender.{Sender}
use network_lab.Lab2.SelectiveRepeat.Receiver
use network_lab.Lab2.SelectiveRepeat.Receiver.{Receiver, window}

pub record System : Type 0 where
  pub tx : Sender
  pub rx : Receiver
  pub forward : List (List ℕ)
  pub backward : List (List ℕ)

abbrev pub start : ℕ → System
start window_size = record {
  tx = Sender.start window_size;
  rx = Receiver.start;
  forward = [];
  backward = [];
}

-- Both programs are given the same window size. A round that sends does not look at what `select`
-- reports: the relation lets it lose those replies as well, which only adds runs.
pub data Step (window_size : ℕ) (file : List ℕ) (s : System) : System → Type 0 where
  sender :
      {sel : Select} {rest ws : List (List ℕ)} (clock : ℕ → ℕ)
      → Reports s.rx.stopped s.backward sel rest
      → Carries (sends (Sender.round clock file s.tx sel).1) ws
      → Step window_size file s (record s {
        tx = (Sender.round clock file s.tx sel).0;
        forward = s.forward ++ ws;
        backward = rest;
      })
  receiver :
      {b : List ℕ} {rest ws : List (List ℕ)}
      → s.rx.stopped ≡ false
      → s.forward ≡ b ∷ rest
      → Carries (Receiver.on_frame (window window_size) s.rx b).1 ws
      → Step window_size file s (record s {
        rx = (Receiver.on_frame (window window_size) s.rx b).0;
        forward = rest;
        backward = s.backward ++ ws;
      })

pub data Reach (window_size : ℕ) (file : List ℕ) (s : System) : System → Type 0 where
  here : Reach window_size file s s
  next :
      {t u : System}
      → Reach window_size file s t
      → Step window_size file t u
      → Reach window_size file s u
