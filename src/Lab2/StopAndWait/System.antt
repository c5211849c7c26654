-- ===== src/Lab2/StopAndWait/System.antt =====
-- lab2: a Stop-and-Wait sender and receiver joined by two channels, each a stream socket that keeps
-- the order of the frames written to it.
use network_lab.Prelude.{ℕ, Bool, true, false, none, some, ◌≡◌, ◌⊎◌, List, [], ◌∷◌, ◌++◌}
use network_lab.Lab2.Channel.{Carries}
use network_lab.Lab2.Arq.Calls.{sends}
use network_lab.Lab2.StopAndWait.Sender
use network_lab.Lab2.StopAndWait.Sender.{
  Sender, sending, waiting, ending, select_error, nothing, readable, WaitResult, wait_for_ack,
}
use network_lab.Lab2.StopAndWait.Receiver
use network_lab.Lab2.StopAndWait.Receiver.{Receiver}

pub record System : Type 0 where
  pub tx : Sender
  pub rx : Receiver
  pub forward : List (List ℕ)
  pub backward : List (List ℕ)

abbrev pub start : System
start = record { tx = Sender.start; rx = Receiver.start; forward = []; backward = [] }

-- What the sender's wait may bring, and the frames that are left in the socket. The end of the
-- stream is read when the receiver has stopped and nothing is left.
pub data Hears (stopped : Bool) : List (List ℕ) → WaitResult → List (List ℕ) → Type 0 where
  fails : {bs : List (List ℕ)} → Hears stopped bs (wait_for_ack select_error none) bs
  expires : {bs : List (List ℕ)} → Hears stopped bs (wait_for_ack nothing none) bs
  reads :
      (b : List ℕ) (rest : List (List ℕ))
      → Hears stopped (b ∷ rest) (wait_for_ack readable (some b)) rest
  closes : stopped ≡ true → Hears stopped [] (wait_for_ack readable none) []

pub data Step (file : List ℕ) (s : System) : System → Type 0 where
  sends_new :
      {ws : List (List ℕ)}
      → s.tx.phase ≡ sending
      → Carries (sends (Sender.main_round file s.tx).1) ws
      → Step file s (record s { tx = (Sender.main_round file s.tx).0; forward = s.forward ++ ws })
  waits :
      {result : WaitResult} {rest ws : List (List ℕ)}
      → (s.tx.phase ≡ waiting) ⊎ (s.tx.phase ≡ ending)
      → Hears s.rx.stopped s.backward result rest
      → Carries (sends (Sender.sw_wait_for_ack file s.tx result).1) ws
      → Step file s (record s {
        tx = (Sender.sw_wait_for_ack file s.tx result).0;
        forward = s.forward ++ ws;
        backward = rest;
      })
  receiver :
      {b : List ℕ} {rest ws : List (List ℕ)}
      → s.rx.stopped ≡ false
      → s.forward ≡ b ∷ rest
      → Carries (Receiver.on_frame s.rx b).1 ws
      → Step file s (record s {
        rx = (Receiver.on_frame s.rx b).0;
        forward = rest;
        backward = s.backward ++ ws;
      })

pub data Reach (file : List ℕ) (s : System) : System → Type 0 where
  here : Reach file s s
  next : {t u : System} → Reach file s t → Step file t u → Reach file s u
