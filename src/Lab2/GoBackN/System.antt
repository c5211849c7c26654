-- ===== src/Lab2/GoBackN/System.antt =====
-- lab2: a Go-Back-N sender and receiver joined by two channels, each a stream socket that keeps the
-- order of the frames written to it.
use network_lab.Prelude.{ℕ, false, ◌≡◌, List, [], ◌∷◌, ◌++◌}
use network_lab.Lab2.Channel.{Carries}
use network_lab.Lab2.Arq.{Select}
use network_lab.Lab2.GoBackN.Sender
use network_lab.Lab2.GoBackN.Sender.{Sender}
use network_lab.Lab2.GoBackN.Receiver
use network_lab.Lab2.GoBackN.Receiver.{Receiver}
unfoldable pub use network_lab.Lab2.Arq.Calls.{sends}
pub use network_lab.Lab2.Arq.Reports.{Reports, fails, expires, reads, closes}

pub record System : Type 0 where
  pub tx : Sender
  pub rx : Receiver
  pub forward : List (List ℕ)
  pub backward : List (List ℕ)

abbrev pub start : ℕ → System
start window_size = record {
  tx = Sender.start window_size;
  rx = Receiver.start;
  forward = [];
  backward = [];
}

-- A round that sends does not look at what `select` reports. The relation lets it lose those replies as
-- well, which only adds runs.
pub data Step (file : List ℕ) (s : System) : System → Type 0 where
  sender :
      {sel : Select} {rest ws : List (List ℕ)}
      → Reports s.rx.stopped s.backward sel rest
      → Carries (sends (Sender.round file s.tx sel).1) ws
      → Step file s (record s {
        tx = (Sender.round file s.tx sel).0;
        forward = s.forward ++ ws;
        backward = rest;
      })
  receiver :
      {b : List ℕ} {rest ws : List (List ℕ)}
      → s.rx.stopped ≡ false
      → s.forward ≡ b ∷ rest
      → Carries (Receiver.on_frame s.rx b).1 ws
      → Step file s (record s {
        rx = (Receiver.on_frame s.rx b).0;
        forward = rest;
        backward = s.backward ++ ws;
      })

pub data Reach (file : List ℕ) (s : System) : System → Type 0 where
  here : Reach file s s
  next : {t u : System} → Reach file s t → Step file t u → Reach file s u
