-- ===== src/Utils/Sockets.antt =====
-- utils/utils.c: `tcp_listen`, `tcp_accept`, `tcp_connect` and `close_conn`, with the outcome of each
-- system call as an argument. A function returns its result, `none` for -1, and the row of its calls.
pub mod Balance
use network_lab.Prelude.{ℕ, Bool, true, false, Option, none, some, List, [], ◌∷◌, u16}
use network_lab.Utils.Calls.{
  Call, socket_gives, accept_gives, setsockopt, bind, listen, connect, close, Outcome, after,
}

-- What follows a call that has failed.
unfoldable pub give_up : ℕ → Outcome (Option ℕ)
give_up fd = record { gives = none; calls = close fd ∷ [] }

-- The outcomes of `socket`, `setsockopt`, `bind` and `listen`.
unfoldable pub tcp_listen : ℕ → ℕ → Option ℕ → Bool → Bool → Bool → Outcome (Option ℕ)
tcp_listen port backlog socket_fd setsockopt_ok bind_ok listen_ok = elim socket_fd [
  | none ↦ record { gives = none; calls = [] }
  | some fd ↦ after (socket_gives fd ∷ setsockopt fd ∷ []) (elim setsockopt_ok [
    | false ↦ give_up fd
    | true ↦ after (bind fd (u16 port) ∷ []) (elim bind_ok [
      | false ↦ give_up fd
      | true ↦
          after (listen fd backlog ∷ [])
            (elim listen_ok [ false ↦ give_up fd | true ↦ record { gives = some fd; calls = [] } ])
    ])
  ])
]

-- `accept` gives the descriptor of a client, or fails.
unfoldable pub tcp_accept : ℕ → Option ℕ → Outcome (Option ℕ)
tcp_accept listen_fd none = record { gives = none; calls = [] }
tcp_accept listen_fd (some client_fd) = record {
  gives = some client_fd;
  calls = accept_gives listen_fd client_fd ∷ [];
}

-- The outcomes of `socket`, `inet_pton`, which reads the address and uses no descriptor, and
-- `connect`.
unfoldable pub tcp_connect : ℕ → Option ℕ → Bool → Bool → Outcome (Option ℕ)
tcp_connect port socket_fd inet_pton_ok connect_ok = elim socket_fd [
  | none ↦ record { gives = none; calls = [] }
  | some fd ↦ after (socket_gives fd ∷ []) (elim inet_pton_ok [
    | false ↦ give_up fd
    | true ↦
        after (connect fd (u16 port) ∷ [])
          (elim connect_ok [ false ↦ give_up fd | true ↦ record { gives = some fd; calls = [] } ])
  ])
]

-- `none` is a negative descriptor.
unfoldable pub close_conn : Option ℕ → List Call
close_conn none = []
close_conn (some fd) = close fd ∷ []
