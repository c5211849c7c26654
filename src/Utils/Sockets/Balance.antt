-- ===== src/Utils/Sockets/Balance.antt =====
-- utils/utils.c: which descriptors are open after a function has returned.
use network_lab.Prelude.{ℕ, ◌≡◌, refl, Bool, true, false, Option, none, some, ◌∷◌}
use network_lab.Utils.Calls.{Outcome, Table, found, apply_calls}
use network_lab.Utils.Sockets.{give_up, tcp_listen, tcp_connect}

-- The table with the descriptor that a function hands to its caller.
abbrev pub handed : Option ℕ → Table → Table
handed none t = t
handed (some fd) t = record t { descriptors = fd ∷ t.descriptors }

-- The calls use only what is held, and what is held behind them is what was held before, and the
-- descriptor that is given.
abbrev pub IsBalanced : Outcome (Option ℕ) → Table → Type 0
IsBalanced outcome t = apply_calls outcome.calls t ≡ some (handed outcome.gives t)

module _ (port : ℕ) (t : Table) where
  pub tcp_listen-IsBalanced :
      (backlog : ℕ) (socket_fd : Option ℕ) (a b c : Bool)
      → IsBalanced (tcp_listen port backlog socket_fd a b c) t
  unfolding tcp_listen give_up apply_calls
  tcp_listen-IsBalanced backlog none a b c = refl
  tcp_listen-IsBalanced backlog (some fd) false b c = rw (found fd, found fd) refl
  tcp_listen-IsBalanced backlog (some fd) true false c = rw (found fd, found fd, found fd) refl
  tcp_listen-IsBalanced backlog (some fd) true true false =
      rw (found fd, found fd, found fd, found fd) refl
  tcp_listen-IsBalanced backlog (some fd) true true true = rw (found fd, found fd, found fd) refl

  pub tcp_connect-IsBalanced :
      (socket_fd : Option ℕ) (a b : Bool) → IsBalanced (tcp_connect port socket_fd a b) t
  unfolding tcp_connect give_up apply_calls
  tcp_connect-IsBalanced none a b = refl
  tcp_connect-IsBalanced (some fd) false b = rw (found fd) refl
  tcp_connect-IsBalanced (some fd) true false = rw (found fd, found fd) refl
  tcp_connect-IsBalanced (some fd) true true = rw (found fd) refl
