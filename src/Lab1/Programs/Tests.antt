-- ===== src/Lab1/Programs/Tests.antt =====
-- lab1/sender.c, lab1/receiver.c: a run of each program.
use network_lab.Prelude.{◌≡◌, refl, true, false, some, [], ◌∷◌}
use network_lab.Utils.Calls.{
  Table, apply_calls, socket_gives, accept_gives, setsockopt, bind, listen, connect, read, close,
  fopen_gives, fseek, ftell, fread, fwrite, fclose, malloc_gives, free,
}
use network_lab.Utils.Sockets.{give_up, tcp_listen, tcp_accept, tcp_connect, close_conn}
use network_lab.Utils.Files.{read_file}
use network_lab.Lab1.Programs.{
  receive_calls, receive_from, accept_on, receive_behind, receiver_main, send_calls, send_to,
  send_behind, sender_main,
}
use network_lab.Lab1.Programs.Released.{main-held}

-- What the process holds before.
abbrev started : Table
started = record { descriptors = 0 ∷ 1 ∷ 2 ∷ []; streams = 7 ∷ []; buffers = [] }

-- Two frames, of which the second is rejected.
receiver_run :
    receiver_main (some 3) true true true (some 4) (some 9) (true ∷ false ∷ []) ≡ record {
      gives = 0;
      calls =
          socket_gives 3
          ∷ setsockopt 3
          ∷ bind 3 8080
          ∷ listen 3 1
          ∷ accept_gives 3 4
          ∷ fopen_gives 9
          ∷ read 4
          ∷ fwrite 9
          ∷ read 4
          ∷ read 4
          ∷ fclose 9
          ∷ close 4
          ∷ close 3
          ∷ [];
    }
unfolding receiver_main receive_behind accept_on receive_from receive_calls tcp_listen tcp_accept
    close_conn
receiver_run = refl

-- The connection is refused.
sender_run : sender_main (some 9) 2 (some 100) (65 ∷ 66 ∷ []) (some 3) true false 0 ≡ record {
  gives = 1;
  calls =
      fopen_gives 9
      ∷ fseek 9
      ∷ ftell 9
      ∷ fseek 9
      ∷ malloc_gives 100
      ∷ fread 9
      ∷ fclose 9
      ∷ socket_gives 3
      ∷ connect 3 8080
      ∷ close 3
      ∷ free 100
      ∷ [];
}
unfolding sender_main send_behind send_to send_calls read_file tcp_connect give_up
sender_run = refl

main-held_example :
    (apply_calls
        (receiver_main (some 3) true false true (some 4) (some 9) (true ∷ false ∷ [])).calls
        started
      ≡ some started)
    × (apply_calls
          (sender_main (some 9) 2 (some 100) (65 ∷ 66 ∷ []) (some 3) true false 0).calls
          started
        ≡ some started)
main-held_example =
    main-held (some 3) (some 4) (some 9) (some 9) (some 100) true false true (true ∷ false ∷ []) 2
      (65 ∷ 66 ∷ []) 0 started
