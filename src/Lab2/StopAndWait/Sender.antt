-- ===== src/Lab2/StopAndWait/Sender.antt =====
-- lab2/arq/sender.c: `wait_for_ack`, `sw_wait_for_ack` and `sender_sw_mode`.
-- `main_round` is a turn of the main loop up to its wait, `sw_wait_for_ack` a turn of the loop that
-- waits. They return the new state and the calls that they make of the channel and the timers.
use network_lab.Prelude.{
  ℕ, ◌+◌, ◌%◌, Bool, Option, none, some, List, [], ◌∷◌, ◌&&◌, u32, length, ltb, ◌==◌, if◌then◌else◌,
}
use network_lab.Lab1.Frame.{Frame, zero_frame, to_bytes, of_bytes}
use network_lab.Lab1.Frame.Seal.{fcs_matches}
use network_lab.Lab2.Arq.{
  ArqStats, zero_stats, Call, mark_send_time, channel_send, timer_start_window, timer_stop_window,
  record_rtt, frame_ack, chunk_len, data_frame, eot_frame,
}

-- What `select` returns: an error, 0, or that the socket can be read.
pub data Ready : Type 0 where
  select_error nothing readable : Ready

-- What `wait_for_ack` returns: -1, 0, -2, or the bytes of a frame.
pub data WaitResult : Type 0 where
  wait_failed timed_out peer_closed : WaitResult
  got_frame : List ℕ → WaitResult

-- `channel_recv` reads a whole frame, or its result is not positive, which is `none`.
unfoldable pub wait_for_ack : Ready → Option (List ℕ) → WaitResult
wait_for_ack select_error bytes = wait_failed
wait_for_ack nothing bytes = timed_out
wait_for_ack readable none = peer_closed
wait_for_ack readable (some bytes) = got_frame bytes

-- Where the functions stand: at the top of the main loop, waiting for the acknowledgement of a data
-- frame or of the end-of-transmission frame, returned with 0 or with -1.
pub data Phase : Type 0 where
  sending waiting ending finished gave_up : Phase

-- The locals of `sender_sw_mode`, with the counters of `g_stats`.
pub record Sender : Type 0 where
  pub sn : ℕ
  pub offset : ℕ
  pub frame : Frame
  pub stats : ArqStats
  pub phase : Phase

abbrev pub start : Sender
start = record { sn = 0; offset = 0; frame = zero_frame; stats = zero_stats; phase = sending }

-- What sending a new frame does: `next` is the frame, already built.
unfoldable pub send_new : Sender → Frame → Phase → Sender × List Call
send_new s next phase = (
  record s {
    frame = next;
    stats = record (s.stats) { frames_sent = u32 (s.stats.frames_sent + 1) };
    phase = phase;
  },
  mark_send_time s.sn ∷ channel_send (to_bytes next) ∷ timer_start_window ∷ [],
)

-- A turn of `while (offset < file_size)` up to the wait, or what stands behind that loop.
unfoldable pub main_round : List ℕ → Sender → Sender × List Call
main_round file s =
    if ltb s.offset (length file)
    then send_new s (data_frame file s.offset s.sn) waiting
    else send_new s (eot_frame s.sn) ending

-- Behind the wait for a data frame: ADVANCE TO NEXT FRAME.
unfoldable pub advance : List ℕ → Sender → Sender
advance file s = record s {
  offset = s.offset + chunk_len file s.offset;
  sn = (s.sn + 1) % 2;
  phase = sending;
}

-- The wait has returned 0.
unfoldable pub acked : Phase → List ℕ → Sender → Sender
acked waiting file s = advance file s
acked ending file s = record s { phase = finished }
acked sending file s = s
acked finished file s = s
acked gave_up file s = s

-- A valid acknowledgement of this frame
unfoldable pub acknowledges : Sender → List ℕ → Bool
acknowledges s bytes =
    let ack = of_bytes bytes in
    fcs_matches bytes && ((ack.header.frame_type == frame_ack) && (ack.header.frame_seq == s.sn))

unfoldable pub count_corrupted : Sender → List ℕ → Sender
count_corrupted s bytes = if fcs_matches bytes then s else record s {
  stats = record (s.stats) { corrupted_count = u32 (s.stats.corrupted_count + 1) };
}

unfoldable pub on_reply : List ℕ → Sender → List ℕ → Sender × List Call
on_reply file s bytes =
    if acknowledges s bytes
    then (
      acked s.phase file (record s {
        stats = record (s.stats) { acks_received = u32 (s.stats.acks_received + 1) };
      }),
      timer_stop_window ∷ record_rtt s.sn ∷ [],
    )
    else (count_corrupted s bytes, [])

-- Timeout: resend and restart the window timer.
unfoldable pub retransmit : Sender → Sender × List Call
retransmit s = (
  record s {
    stats = record (s.stats) { frames_retransmitted = u32 (s.stats.frames_retransmitted + 1) };
  },
  mark_send_time s.sn
      ∷ channel_send (to_bytes s.frame)
      ∷ timer_stop_window
      ∷ timer_start_window
      ∷ [],
)

-- One turn of the loop that waits. A closed socket counts as an acknowledgement.
unfoldable pub sw_wait_for_ack : List ℕ → Sender → WaitResult → Sender × List Call
sw_wait_for_ack file s (got_frame bytes) = on_reply file s bytes
sw_wait_for_ack file s timed_out = retransmit s
sw_wait_for_ack file s peer_closed = (acked s.phase file s, [])
sw_wait_for_ack file s wait_failed = (record s { phase = gave_up }, [])
