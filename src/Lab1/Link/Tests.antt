-- ===== src/Lab1/Link/Tests.antt =====
-- A file sent and received under CRC-8.
use network_lab.Prelude.{ℕ, ◌*◌, ◌≡◌, true, false, List, [], ◌∷◌, take, replicate, length, arith}
use network_lab.Lab1.Scheme.{crc8}
use network_lab.Lab1.Link.{file_sent, connection_closed, send_frames, receive_frames, start}
use network_lab.Lab1.Link.Transfer.{arrivals, receive_frames-take, receive_frames-send_frames}

abbrev file : List ℕ
file = 7 ∷ replicate 44 9

-- The second frame is not sent.
receive_frames-take_example :
    let sent = send_frames crc8 file (true ∷ false ∷ []) 0 0 in
    let t = receive_frames crc8 (arrivals sent.0) start in
    (t.0.output ≡ take (44 * length sent.0) file) × (t.0.rejected ≡ 0) × (t.1 ≡ connection_closed)
receive_frames-take_example = receive_frames-take crc8 file (omega arith) (true ∷ false ∷ [])

receive_frames-send_frames_example :
    let sent = send_frames crc8 file (replicate 2 true) 0 0 in
    (sent.1 ≡ file_sent) × ((receive_frames crc8 (arrivals sent.0) start).0.output ≡ file)
receive_frames-send_frames_example =
    receive_frames-send_frames crc8 file (omega arith) 2 (omega arith)
