-- ===== src/Utils/Tests.antt =====
-- Runs of the socket helpers.
use network_lab.Prelude.{◌≡◌, refl, List, [], ◌∷◌, arith}
use network_lab.Utils.{
  ReadResult, delivers, read_interrupted, received, recv_loop, recv_all, writes, write_interrupted,
  send_all,
}
use network_lab.Utils.Sending.{Writes, send_all-Writes}
use network_lab.Utils.Transfer.{TakesFrom, stream, recv_all-TakesFrom}

-- Five bytes in two pieces with an interruption, of which four are asked for.
abbrev pieces : List ReadResult
pieces = delivers 1 (2 ∷ (3 ∷ [])) ∷ (read_interrupted ∷ (delivers 4 [] ∷ (delivers 5 [] ∷ [])))

run : recv_all pieces 4 ≡ received (1 ∷ (2 ∷ (3 ∷ (4 ∷ [])))) (delivers 5 [] ∷ [])
unfolding recv_all recv_loop
run = refl

recv_all-TakesFrom_example : TakesFrom (stream pieces) 4 (recv_all pieces 4)
recv_all-TakesFrom_example =
    recv_all-TakesFrom pieces 4
      ((λ h. omega arith), ((λ h. omega arith), ((λ h. absurd (omega arith)), tt)))

-- The two bytes are taken one by one.
send_all-Writes_example :
    Writes
      (8 ∷ (9 ∷ []))
      (send_all (writes 1 ∷ (write_interrupted ∷ (writes 1 ∷ []))) (8 ∷ (9 ∷ [])))
send_all-Writes_example =
    send_all-Writes (writes 1 ∷ (write_interrupted ∷ (writes 1 ∷ []))) (8 ∷ (9 ∷ []))
