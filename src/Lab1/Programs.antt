-- ===== src/Lab1/Programs.antt =====
-- lab1/sender.c, lab1/receiver.c: what the two programs open, use and close behind the reading of
-- their arguments. The outcomes of the calls are arguments; the frames are in Lab1.Link.
pub mod Released
mod Tests
use network_lab.Prelude.{ℕ, zero, suc, Bool, true, false, Option, none, some, List, [], ◌∷◌, ◌++◌}
use network_lab.Utils.Calls.{Call, read, write, fopen_gives, fwrite, fclose, free, Outcome, after}
use network_lab.Utils.Sockets.{tcp_listen, tcp_accept, tcp_connect, close_conn}
use network_lab.Utils.Files.{read_file}

abbrev port : ℕ
port = 8080

-- The loop of the receiver: a `read` for each `recv_all`, the one that ends it included, and an
-- `fwrite` for each frame that is accepted.
unfoldable pub receive_calls : ℕ → ℕ → List Bool → List Call
receive_calls fd out [] = read fd ∷ []
receive_calls fd out (true ∷ verdicts) = read fd ∷ fwrite out ∷ receive_calls fd out verdicts
receive_calls fd out (false ∷ verdicts) = read fd ∷ receive_calls fd out verdicts

-- `main` of the receiver behind `tcp_accept`.
unfoldable pub receive_from : ℕ → ℕ → Option ℕ → List Bool → Outcome ℕ
receive_from listen_fd fd none verdicts = record {
  gives = 1;
  calls = close_conn (some fd) ++ close_conn (some listen_fd);
}
receive_from listen_fd fd (some out) verdicts = record {
  gives = 0;
  calls =
      fopen_gives out
      ∷ (receive_calls fd out verdicts
          ++ (fclose out ∷ (close_conn (some fd) ++ close_conn (some listen_fd))));
}

-- `main` of the receiver behind `tcp_listen`.
unfoldable pub accept_on : ℕ → Option ℕ → Option ℕ → List Bool → Outcome ℕ
accept_on listen_fd client_fd out verdicts = elim (tcp_accept listen_fd client_fd).gives [
  | none ↦
      after (tcp_accept listen_fd client_fd).calls
        (record { gives = 1; calls = close_conn (some listen_fd) })
  | some fd ↦ after (tcp_accept listen_fd client_fd).calls (receive_from listen_fd fd out verdicts)
]

-- `main` of the receiver, with what `tcp_listen` has done.
unfoldable pub receive_behind : Outcome (Option ℕ) → Option ℕ → Option ℕ → List Bool → Outcome ℕ
receive_behind setup client_fd out verdicts = elim setup.gives [
  | none ↦ after setup.calls (record { gives = 1; calls = [] })
  | some listen_fd ↦ after setup.calls (accept_on listen_fd client_fd out verdicts)
]

-- The exit code of the receiver, and the row of its calls, from the outcomes of the four calls of
-- `tcp_listen`, of `accept` and of `fopen`, and the verdicts on the frames.
unfoldable pub receiver_main :
    Option ℕ → Bool → Bool → Bool → Option ℕ → Option ℕ → List Bool → Outcome ℕ
receiver_main socket_fd setsockopt_ok bind_ok listen_ok client_fd out verdicts =
    receive_behind (tcp_listen port 1 socket_fd setsockopt_ok bind_ok listen_ok) client_fd out
      verdicts

-- The loop of the sender: a `write` for each `send_all`.
unfoldable pub send_calls : ℕ → ℕ → List Call
send_calls fd zero = []
send_calls fd (suc frames) = write fd ∷ send_calls fd frames

-- `main` of the sender behind `tcp_connect`.
unfoldable pub send_to : ℕ → Option ℕ → ℕ → Outcome ℕ
send_to buf none frames = record { gives = 1; calls = free buf ∷ [] }
send_to buf (some fd) frames = record {
  gives = 0;
  calls = send_calls fd frames ++ (close_conn (some fd) ++ (free buf ∷ []));
}

-- `main` of the sender, with what `read_file` and `tcp_connect` have done.
unfoldable pub send_behind : Outcome (Option (ℕ × List ℕ)) → Outcome (Option ℕ) → ℕ → Outcome ℕ
send_behind file setup frames = elim file.gives [
  | none ↦ after file.calls (record { gives = 1; calls = [] })
  | some (buf, bytes) ↦ after file.calls (after setup.calls (send_to buf setup.gives frames))
]

-- The exit code of the sender, and the row of its calls, from the outcomes of the calls of `read_file`
-- and `tcp_connect` and the number of frames sent.
unfoldable pub sender_main :
    Option ℕ → ℕ → Option ℕ → List ℕ → Option ℕ → Bool → Bool → ℕ → Outcome ℕ
sender_main stream size buffer bytes socket_fd inet_pton_ok connect_ok frames =
    send_behind (read_file stream size buffer bytes)
      (tcp_connect port socket_fd inet_pton_ok connect_ok) frames
