-- ===== src/Lab2/StopAndWait/Receiver.antt =====
-- lab2/arq/receiver.c: `receiver_sw_mode`.
use network_lab.Prelude.{
  ℕ, ◌+◌, ◌-◌, ◌%◌, Bool, false, List, [], ◌∷◌, ◌++◌, u32, take, ◌==◌, if◌then◌else◌,
}
use network_lab.Lab1.Frame.{Frame, to_bytes, of_bytes}
use network_lab.Lab1.Frame.Seal.{fcs_matches}
use network_lab.Lab2.Arq.{ArqStats, zero_stats, frame_data, frame_ack, reply_frame}

-- The local of the loop, the output file, the counters, and whether the loop has been left.
pub record Receiver : Type 0 where
  pub rn : ℕ
  pub output : List ℕ
  pub stats : ArqStats
  pub stopped : Bool

abbrev pub start : Receiver
start = record { rn = 0; output = []; stats = zero_stats; stopped = false }

-- VALID DATA FRAME. `fwrite` reads 44 payload bytes at most: the frames of the senders say no more in
-- `frame_len`. An empty frame ends the transmission.
unfoldable pub deliver : Receiver → Frame → Receiver
deliver r frame = record {
  rn = (r.rn + 1) % 2;
  output = r.output ++ take frame.header.frame_len frame.payload;
  stats = record (r.stats) { frames_sent = u32 (r.stats.frames_sent + 1) };
  stopped = frame.header.frame_len == 0;
}

unfoldable pub corrupted : Receiver → Receiver
corrupted r = record r {
  stats = record (r.stats) { corrupted_count = u32 (r.stats.corrupted_count + 1) };
}

-- SEND ACK for the last frame received, `(Rn - 1 + 2) % 2`.
unfoldable pub send_ack : Receiver → Receiver × List (List ℕ)
send_ack r = (
  record r { stats = record (r.stats) { acks_received = u32 (r.stats.acks_received + 1) } },
  to_bytes (reply_frame frame_ack ((r.rn + 2 - 1) % 2)) ∷ [],
)

-- One turn of the loop on a whole frame, and the ACK that it sends: none for a frame of another type.
-- The exit of the loop when the connection is closed or in error stands before it and is not modelled.
unfoldable pub on_frame : Receiver → List ℕ → Receiver × List (List ℕ)
on_frame r bytes =
    let frame = of_bytes bytes in
    if fcs_matches bytes
    then (if frame.header.frame_type == frame_data
        then send_ack (if frame.header.frame_seq == r.rn then deliver r frame else r)
        else (r, []))
    else send_ack (corrupted r)
