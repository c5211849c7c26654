-- ===== src/Utils.antt =====
-- utils/utils.c: `send_all` and `recv_all`, which write and read a whole buffer on a socket. What the
-- calls of `write` and `read` return, one after the other, is an argument.
pub mod Transfer
pub mod Sending
pub mod Calls
pub mod Sockets
pub mod Files
mod Tests
use network_lab.Prelude.{
  ℕ, zero, suc, ◌+◌, ◌-◌, ◌≤◌, ◌<◌, List, [], ◌∷◌, ◌++◌, take, drop, length, ltb, if◌then◌else◌,
}

-- `delivers` carries the first of the bytes that `read` has put behind `p + got`, and the others: a
-- result of 0 is `end_of_stream`.
pub data ReadResult : Type 0 where
  delivers : ℕ → List ℕ → ReadResult
  read_interrupted : ReadResult
  read_fails : ReadResult
  end_of_stream : ReadResult

-- `received` returns `len`, with the buffer and the results not used; `recv_closed` returns 0 and
-- `recv_failed` -1. `recv_waits` is a call still in its loop when the results given are used up.
pub data RecvResult : Type 0 where
  received : List ℕ → List ReadResult → RecvResult
  recv_closed : RecvResult
  recv_failed : RecvResult
  recv_waits : RecvResult

-- The loop of `recv_all`, with the bytes read so far.
unfoldable pub recv_loop : List ReadResult → ℕ → List ℕ → RecvResult
recv_loop [] len buf = if ltb (length buf) len then recv_waits else received buf []
recv_loop (delivers b more ∷ results) len buf =
    let rest = recv_loop results len (buf ++ (b ∷ more)) in
    if ltb (length buf) len then rest else received buf (delivers b more ∷ results)
recv_loop (read_interrupted ∷ results) len buf =
    let rest = recv_loop results len buf in
    if ltb (length buf) len then rest else received buf (read_interrupted ∷ results)
recv_loop (read_fails ∷ results) len buf =
    if ltb (length buf) len then recv_failed else received buf (read_fails ∷ results)
recv_loop (end_of_stream ∷ results) len buf =
    if ltb (length buf) len then recv_closed else received buf (end_of_stream ∷ results)

unfoldable pub recv_all : List ReadResult → ℕ → RecvResult
recv_all results len = recv_loop results len []

-- `writes n` has taken `n` of the bytes offered.
pub data WriteResult : Type 0 where
  writes : ℕ → WriteResult
  write_interrupted : WriteResult
  write_fails : WriteResult

pub data SendResult : Type 0 where
  all_sent : List WriteResult → SendResult
  send_failed : SendResult
  send_waits : SendResult

-- The loop of `send_all`: the bytes that it puts on the wire from `p + sent` on, and its outcome.
unfoldable pub send_loop : List WriteResult → List ℕ → ℕ → List ℕ × SendResult
send_loop [] buf sent = ([], (if ltb sent (length buf) then send_waits else all_sent []))
send_loop (writes n ∷ results) buf sent =
    let rest = send_loop results buf (sent + n) in
    if ltb sent (length buf)
    then (take n (drop sent buf) ++ rest.0, rest.1)
    else ([], all_sent (writes n ∷ results))
send_loop (write_interrupted ∷ results) buf sent =
    let rest = send_loop results buf sent in
    if ltb sent (length buf) then rest else ([], all_sent (write_interrupted ∷ results))
send_loop (write_fails ∷ results) buf sent =
    if ltb sent (length buf) then ([], send_failed) else ([], all_sent (write_fails ∷ results))

unfoldable pub send_all : List WriteResult → List ℕ → List ℕ × SendResult
send_all results buf = send_loop results buf 0
