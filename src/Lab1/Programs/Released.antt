-- ===== src/Lab1/Programs/Released.antt =====
-- lab1/sender.c, lab1/receiver.c: the programs give back what they have taken.
use network_lab.Prelude.{
  ℕ, zero, suc, ◌≡◌, refl, ◌∙◌, Bool, true, false, Option, none, some, List, [], ◌∷◌, ◌++◌,
  Option-cases, inl, inr,
}
use network_lab.Utils.Calls.{Outcome, Table, found, apply_calls, apply_calls-append}
use network_lab.Utils.Sockets.{tcp_listen, tcp_accept, tcp_connect, close_conn}
use network_lab.Utils.Sockets.Balance.{IsBalanced, tcp_listen-IsBalanced, tcp_connect-IsBalanced}
use network_lab.Utils.Files.{read_file, handed, read_file-handed}
use network_lab.Lab1.Programs.{
  port, receive_calls, receive_from, accept_on, receive_behind, receiver_main, send_calls, send_to,
  send_behind, sender_main,
}

-- A process that holds a descriptor and a stream.
abbrev holding : ℕ → ℕ → Table → Table
holding fd out t = record t { descriptors = fd ∷ t.descriptors; streams = out ∷ t.streams }

receive_calls-held :
    (fd out : ℕ) (verdicts : List Bool) (t : Table)
    → apply_calls (receive_calls fd out verdicts) (holding fd out t) ≡ some (holding fd out t)
unfolding receive_calls apply_calls
receive_calls-held fd out [] t = rw (found fd) refl
receive_calls-held fd out (true ∷ verdicts) t =
    rw (found fd, found out) (receive_calls-held fd out verdicts t)
receive_calls-held fd out (false ∷ verdicts) t =
    rw (found fd) (receive_calls-held fd out verdicts t)

send_calls-held :
    (fd frames : ℕ) (t : Table)
    → apply_calls (send_calls fd frames) (record t { descriptors = fd ∷ t.descriptors })
      ≡ some (record t { descriptors = fd ∷ t.descriptors })
unfolding send_calls apply_calls
send_calls-held fd zero t = refl
send_calls-held fd (suc frames) t = rw (found fd) (send_calls-held fd frames t)

module _ (t : Table) where
  receive_from-held :
      (listen_fd fd : ℕ) (out : Option ℕ) (verdicts : List Bool)
      → apply_calls
          (receive_from listen_fd fd out verdicts).calls
          (record t { descriptors = fd ∷ listen_fd ∷ t.descriptors })
        ≡ some t
  unfolding receive_from close_conn apply_calls
  receive_from-held listen_fd fd none verdicts = rw (found fd, found listen_fd) refl
  receive_from-held listen_fd fd (some out) verdicts =
      apply_calls-append (receive_calls fd out verdicts) _ _
        (receive_calls-held fd out verdicts (record t { descriptors = listen_fd ∷ t.descriptors }))
      ∙ rw (found out, found fd, found listen_fd) refl

  accept_on-held :
      (listen_fd : ℕ) (client_fd out : Option ℕ) (verdicts : List Bool)
      → apply_calls
          (accept_on listen_fd client_fd out verdicts).calls
          (record t { descriptors = listen_fd ∷ t.descriptors })
        ≡ some t
  unfolding accept_on tcp_accept close_conn apply_calls
  accept_on-held listen_fd none out verdicts = rw (found listen_fd) refl
  accept_on-held listen_fd (some fd) out verdicts =
      rw (found listen_fd) (receive_from-held listen_fd fd out verdicts)

  receive_behind-held :
      (setup : Outcome (Option ℕ)) (client_fd out : Option ℕ) (verdicts : List Bool)
      → IsBalanced setup t
      → apply_calls (receive_behind setup client_fd out verdicts).calls t ≡ some t
  unfolding receive_behind apply_calls
  receive_behind-held setup client_fd out verdicts balanced = elim (Option-cases setup.gives) [
    | inl failed ↦ rw failed (apply_calls-append setup.calls [] t (rw failed at balanced))
    | inr (fd, listens) ↦ rw listens (
        apply_calls-append setup.calls _ t (rw listens at balanced)
        ∙ accept_on-held fd client_fd out verdicts)
  ]

  send_to-held :
      (buf : ℕ) (setup : Outcome (Option ℕ)) (frames : ℕ)
      → IsBalanced setup (record t { buffers = buf ∷ t.buffers })
      → apply_calls
          (setup.calls ++ (send_to buf setup.gives frames).calls)
          (record t { buffers = buf ∷ t.buffers })
        ≡ some t
  unfolding send_to close_conn apply_calls
  send_to-held buf setup frames balanced = elim (Option-cases setup.gives) [
    | inl failed ↦
        rw failed (apply_calls-append setup.calls _ _ (rw failed at balanced) ∙ rw (found buf) refl)
    | inr (fd, connects) ↦ rw connects (
        apply_calls-append setup.calls _ _ (rw connects at balanced)
        ∙ apply_calls-append (send_calls fd frames) _ _
            (send_calls-held fd frames (record t { buffers = buf ∷ t.buffers }))
        ∙ rw (found fd, found buf) refl)
  ]

  send_behind-held :
      (file : Outcome (Option (ℕ × List ℕ))) (setup : Outcome (Option ℕ)) (frames : ℕ)
      → apply_calls file.calls t ≡ some (handed file.gives t)
      → ((t' : Table) → IsBalanced setup t')
      → apply_calls (send_behind file setup frames).calls t ≡ some t
  unfolding send_behind apply_calls
  send_behind-held file setup frames taken balanced = elim (Option-cases file.gives) [
    | inl failed ↦ rw failed (apply_calls-append file.calls [] t (rw failed at taken))
    | inr ((buf, bytes), whole) ↦ rw whole (
        apply_calls-append file.calls _ t (rw whole at taken)
        ∙ send_to-held buf setup frames (balanced (record t { buffers = buf ∷ t.buffers })))
  ]

-- Whatever the outcome of each call is, and whatever the process held before: the receiver's program
-- and the sender's use only what they hold, and when they return, whichever path they have taken, they
-- have closed every descriptor and every stream that they opened and freed every buffer.
pub main-held :
    (socket_fd client_fd out stream buffer : Option ℕ) (a b c : Bool) (verdicts : List Bool)
    (size : ℕ) (bytes : List ℕ) (frames : ℕ) (t : Table)
    → (apply_calls (receiver_main socket_fd a b c client_fd out verdicts).calls t ≡ some t)
      × (apply_calls (sender_main stream size buffer bytes socket_fd a b frames).calls t ≡ some t)
unfolding receiver_main sender_main
main-held socket_fd client_fd out stream buffer a b c verdicts size bytes frames t = (
  receive_behind-held t (tcp_listen port 1 socket_fd a b c) client_fd out verdicts
      (tcp_listen-IsBalanced port t 1 socket_fd a b c),
  send_behind-held t (read_file stream size buffer bytes) (tcp_connect port socket_fd a b) frames
      (read_file-handed stream size buffer bytes t)
      (λ t'. tcp_connect-IsBalanced port t' socket_fd a b),
)
