-- ===== src/Lab2/GoBackN/Sender.antt =====
-- lab2/arq/sender.c: `gbn_wait_step` and `sender_gbn_mode`.
-- A round is one turn of the main loop or of the drain loop. It returns the new state and the
-- calls that it makes of the channel and the timers.
use network_lab.Prelude.{
  ℕ, zero, suc, ◌+◌, ◌-◌, ◌%◌, ◌^◌, Bool, true, false, List, [], ◌∷◌, ◌++◌, ◌&&◌, u16, u32, ◌<<<◌,
  length, ltb, leb, ◌==◌, if◌then◌else◌,
}
use network_lab.Lab1.Frame.{Frame, zero_frame, to_bytes, of_bytes}
use network_lab.Lab1.Frame.Seal.{fcs_matches}
use network_lab.Lab2.Arq.{
  ArqStats, zero_stats, Call, mark_send_time, channel_send, timer_start_window, timer_stop_window,
  record_rtt, Select, failed, timeout, arrived, frame_ack, chunk_len, data_frame, eot_frame,
}
pub use network_lab.Lab2.Arq.Window.{Phase, sending, draining, finished, store}
unfoldable pub use network_lab.Lab2.Arq.Window.{slide}

-- The locals of `sender_gbn_mode`, with the counters of `g_stats`.
pub record Sender : Type 0 where
  pub sw : ℕ
  pub sf : ℕ
  pub sn : ℕ
  pub offset : ℕ
  pub timer_running : Bool
  pub frame_store : ℕ → Frame
  pub stats : ArqStats
  pub phase : Phase

unfoldable pub start : ℕ → Sender
start window_size = record {
  sw = u16 ((1 <<< window_size) - 1);
  sf = 0;
  sn = 0;
  offset = 0;
  timer_running = false;
  frame_store = λ _. zero_frame;
  stats = zero_stats;
  phase = sending;
}

-- A new ACK: the window slides to it, and an empty window stops the timer.
unfoldable pub slide_to : ℕ → Sender → Sender × List Call
slide_to ack_no s =
    let s' = record s {
      sf = slide (ack_no - s.sf) s.sf;
      stats = record (s.stats) { acks_received = u32 (s.stats.acks_received + 1) };
    } in
    let rtt = record_rtt (u16 (ack_no + 2 ^ 16 - 1)) in
    if s'.sf == s'.sn
    then (record s' { timer_running = false }, rtt ∷ timer_stop_window ∷ [])
    else (s', rtt ∷ [])

-- `(ackNo > *Sf) && (ackNo <= Sn)`, in a frame that passes the check and is an ACK
unfoldable pub acknowledges : Sender → List ℕ → Bool
acknowledges s bytes =
    let ack = of_bytes bytes in
    fcs_matches bytes
    && ((ack.header.frame_type == frame_ack)
        && (ltb s.sf ack.header.frame_seq && leb ack.header.frame_seq s.sn))

-- One frame of the drain of the socket.
unfoldable pub on_ack : Sender → List ℕ → Sender × List Call
on_ack s bytes =
    if acknowledges s bytes then slide_to (of_bytes bytes).header.frame_seq s else (s, [])

unfoldable pub on_acks : Sender → List (List ℕ) → Sender × List Call
on_acks s [] = (s, [])
on_acks s (b ∷ bs) =
    let (s', calls) = on_ack s b in let (s'', more) = on_acks s' bs in (s'', calls ++ more)

-- `for(uint16_t i = *Sf; i < Sn; i++)` of the resend, with the rounds that are left
unfoldable pub resend : (ℕ → Frame) → ℕ → ℕ → ℕ → List Call
resend frames sw zero i = []
resend frames sw (suc left) i =
    mark_send_time i ∷ channel_send (to_bytes (frames (i % sw))) ∷ resend frames sw left (i + 1)

unfoldable pub resend_window : Sender → Sender × List Call
resend_window s = (
  record s {
    stats = record (s.stats) {
      frames_retransmitted = u32 (s.stats.frames_retransmitted + (s.sn - s.sf));
    };
  },
  resend s.frame_store s.sw (s.sn - s.sf) s.sf ++ (timer_start_window ∷ []),
)

-- The third component says that the peer has closed the connection.
unfoldable pub gbn_wait_step : Sender → Select → Sender × List Call × Bool
gbn_wait_step s failed = (s, [], false)
gbn_wait_step s timeout = let (s', calls) = resend_window s in (s', calls, false)
gbn_wait_step s (arrived frames closed) = let (s', calls) = on_acks s frames in (s', calls, closed)

-- Both loops leave when the peer has closed.
unfoldable pub wait : Sender → Select → Sender × List Call
wait s sel =
    let (s', calls, closed) = gbn_wait_step s sel in
    (if closed then record s' { phase = finished } else s', calls)

-- What sending a new frame does: `next` is the frame, already built.
unfoldable pub send_new : Sender → Frame → Sender × List Call
send_new s next = (
  record s {
    frame_store = store s.frame_store (s.sn % s.sw) next;
    sn = u16 (s.sn + 1);
    timer_running = true;
    stats = record (s.stats) { frames_sent = u32 (s.stats.frames_sent + 1) };
  },
  mark_send_time s.sn
      ∷ channel_send (to_bytes next)
      ∷ (if s.timer_running then [] else timer_start_window ∷ []),
)

unfoldable pub send_data : List ℕ → Sender → Sender × List Call
send_data file s =
    let (s', calls) = send_new s (data_frame file s.offset s.sn) in
    (record s' { offset = s.offset + chunk_len file s.offset }, calls)

unfoldable pub send_eot : Sender → Sender × List Call
send_eot s =
    let (s', calls) = send_new s (eot_frame s.sn) in (record s' { phase = draining }, calls)

-- A turn of `while (offset < file_size)`, or what stands behind that loop.
unfoldable pub main_round : List ℕ → Sender → Select → Sender × List Call
main_round file s sel =
    if ltb s.offset (length file)
    then if leb (s.sf + s.sw) s.sn then wait s sel else send_data file s
    else send_eot s

-- A turn of `while (Sf < Sn)`, or the return behind it.
unfoldable pub drain_round : Sender → Select → Sender × List Call
drain_round s sel = if ltb s.sf s.sn then wait s sel else (record s { phase = finished }, [])

unfoldable pub round_in : Phase → List ℕ → Sender → Select → Sender × List Call
round_in sending file s sel = main_round file s sel
round_in draining file s sel = drain_round s sel
round_in finished file s sel = (s, [])

unfoldable pub round : List ℕ → Sender → Select → Sender × List Call
round file s sel = round_in s.phase file s sel
