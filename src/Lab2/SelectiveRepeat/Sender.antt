-- ===== src/Lab2/SelectiveRepeat/Sender.antt =====
-- lab2/arq/sender.c: `sr_wait_step` and `sender_sr_mode`.
-- A round is one turn of the main loop or of the drain loop. It returns the new state and the
-- calls that it makes of the channel. The clock is a function: `clock i` is what the round reads
-- from it after `i` frames have been taken from the socket. Times are counted in nanoseconds, where
-- the code converts to `double` milliseconds.
use network_lab.Prelude.{
  ℕ, zero, suc, ◌+◌, ◌-◌, ◌%◌, ◌^◌, Bool, true, false, Option, none, some, List, [], ◌∷◌, ◌++◌,
  ◌&&◌, u16, u32, ◌<<<◌, length, ltb, leb, ◌==◌, if◌then◌else◌,
}
use network_lab.Lab1.Frame.{Frame, zero_frame, to_bytes, of_bytes}
use network_lab.Lab1.Frame.Seal.{fcs_matches}
use network_lab.Lab2.Arq.{
  ArqStats, zero_stats, Call, mark_send_time, channel_send, record_rtt, Select, failed, timeout,
  arrived, frame_ack, frame_nak, chunk_len, data_frame, eot_frame,
}
use network_lab.Lab2.Arq.Window.{Phase, sending, draining, finished, store}

-- `timer_slot_t`
pub record TimerSlot : Type 0 where
  pub seq_num : ℕ
  pub send_time : ℕ
  pub is_pending : Bool

-- The locals of `sender_sr_mode`, with the counters of `g_stats`.
pub record Sender : Type 0 where
  pub sw : ℕ
  pub sf : ℕ
  pub sn : ℕ
  pub offset : ℕ
  pub frame_store : ℕ → Frame
  pub timers : ℕ → TimerSlot
  pub stats : ArqStats
  pub phase : Phase

-- The window size is at least 1: the shift by -1 for 0 has no meaning in C.
unfoldable pub start : ℕ → Sender
start window_size = record {
  sw = u16 (1 <<< (window_size - 1));
  sf = 0;
  sn = 0;
  offset = 0;
  frame_store = λ _. zero_frame;
  timers = λ _. record { seq_num = 0; send_time = 0; is_pending = false };
  stats = zero_stats;
  phase = sending;
}

abbrev set_timer : (ℕ → TimerSlot) → ℕ → TimerSlot → ℕ → TimerSlot
set_timer timers slot t i = if i == slot then t else timers i

-- 20 ms, the fixed RTO
abbrev pub rto_ns : ℕ
rto_ns = 20000000

-- `20.0 - elapsed_ms`, and 0 where that is negative
abbrev pub remaining : ℕ → TimerSlot → ℕ
remaining now slot = rto_ns - (now - slot.send_time)

-- The loop over the pending timers, with the rounds that are left, the least wait so far and the
-- frame that it belongs to, which is `none` for UINT16_MAX.
unfoldable pub earliest : (ℕ → TimerSlot) → ℕ → ℕ → ℕ → ℕ → ℕ → Option ℕ → Option ℕ
earliest timers sw now zero i min_timeout earliest_seq = earliest_seq
earliest timers sw now (suc left) i min_timeout earliest_seq =
    let slot = timers (i % sw) in
    let rest = earliest timers sw now left (i + 1) in
    if slot.is_pending && ltb (remaining now slot) min_timeout
    then rest (remaining now slot) (some i)
    else rest min_timeout earliest_seq

-- Resend a stored frame and restart its timer.
unfoldable pub resend : ℕ → Sender → ℕ → Sender × List Call
resend time s seq =
    let slot = seq % s.sw in
    (
      record s {
        timers =
            set_timer s.timers slot
              (record (s.timers slot) { send_time = time; is_pending = true });
        stats = record (s.stats) { frames_retransmitted = u32 (s.stats.frames_retransmitted + 1) };
      },
      mark_send_time seq ∷ channel_send (to_bytes (s.frame_store slot)) ∷ [],
    )

-- `(frame_seq >= *Sf) && (frame_seq < Sn)`
unfoldable pub on_nak : ℕ → Sender → ℕ → Sender × List Call
on_nak time s frame_seq =
    if leb s.sf frame_seq && ltb frame_seq s.sn then resend time s frame_seq else (s, [])

-- `while(*Sf < frame_seq)`, with the rounds that are left: the timers stop.
unfoldable pub purge : ℕ → ℕ → ℕ → (ℕ → TimerSlot) → ℕ × (ℕ → TimerSlot)
purge zero sw sf timers = (sf, timers)
purge (suc left) sw sf timers =
    purge left sw (u16 (sf + 1))
      (set_timer timers (sf % sw) (record (timers (sf % sw)) { is_pending = false }))

-- `(frame_seq > *Sf) && (frame_seq <= Sn)`
unfoldable pub on_ack : Sender → ℕ → Sender × List Call
on_ack s frame_seq =
    if ltb s.sf frame_seq && leb frame_seq s.sn
    then (let (sf', timers') = purge (frame_seq - s.sf) s.sw s.sf s.timers in
        (
          record s {
            sf = sf';
            timers = timers';
            stats = record (s.stats) { acks_received = u32 (s.stats.acks_received + 1) };
          },
          record_rtt (u16 (frame_seq + 2 ^ 16 - 1)) ∷ [],
        ))
    else (s, [])

-- One frame of the drain of the socket.
unfoldable pub on_reply : ℕ → Sender → List ℕ → Sender × List Call
on_reply time s bytes =
    let header = (of_bytes bytes).header in
    if fcs_matches bytes
    then (if header.frame_type == frame_nak
        then on_nak time s header.frame_seq
        else if header.frame_type == frame_ack
        then on_ack s header.frame_seq
        else (s, []))
    else (s, [])

unfoldable pub on_replies : (ℕ → ℕ) → ℕ → Sender → List (List ℕ) → Sender × List Call
on_replies clock i s [] = (s, [])
on_replies clock i s (b ∷ bs) =
    let (s', calls) = on_reply (clock (i + 1)) s b in
    let (s'', more) = on_replies clock (i + 1) s' bs in (s'', calls ++ more)

-- TIMEOUT: the earliest expired frame, if a timer was found.
unfoldable pub resend_earliest : ℕ → Sender → Option ℕ → Sender × List Call
resend_earliest time s none = (s, [])
resend_earliest time s (some seq) = resend time s seq

-- The third component says that the peer has closed the connection.
unfoldable pub sr_wait_step : (ℕ → ℕ) → Sender → Select → Sender × List Call × Bool
sr_wait_step clock s failed = (s, [], false)
sr_wait_step clock s timeout =
    let (s', calls) =
      resend_earliest (clock 1) s
        (earliest s.timers s.sw (clock 0) (s.sn - s.sf) s.sf rto_ns none) in
    (s', calls, false)
sr_wait_step clock s (arrived frames closed) =
    let (s', calls) = on_replies clock 0 s frames in (s', calls, closed)

-- Both loops leave when the peer has closed.
unfoldable pub wait : (ℕ → ℕ) → Sender → Select → Sender × List Call
wait clock s sel =
    let (s', calls, closed) = sr_wait_step clock s sel in
    (if closed then record s' { phase = finished } else s', calls)

-- What sending a new frame does: `next` is the frame, already built.
unfoldable pub send_new : ℕ → Sender → Frame → Sender × List Call
send_new time s next = (
  record s {
    frame_store = store s.frame_store (s.sn % s.sw) next;
    timers =
        set_timer s.timers (s.sn % s.sw)
          (record { seq_num = s.sn; send_time = time; is_pending = true });
    sn = u16 (s.sn + 1);
    stats = record (s.stats) { frames_sent = u32 (s.stats.frames_sent + 1) };
  },
  mark_send_time s.sn ∷ channel_send (to_bytes next) ∷ [],
)

unfoldable pub send_data : ℕ → List ℕ → Sender → Sender × List Call
send_data time file s =
    let (s', calls) = send_new time s (data_frame file s.offset s.sn) in
    (record s' { offset = s.offset + chunk_len file s.offset }, calls)

unfoldable pub send_eot : ℕ → Sender → Sender × List Call
send_eot time s =
    let (s', calls) = send_new time s (eot_frame s.sn) in (record s' { phase = draining }, calls)

-- A turn of `while (offset < file_size)`, or what stands behind that loop.
unfoldable pub main_round : (ℕ → ℕ) → List ℕ → Sender → Select → Sender × List Call
main_round clock file s sel =
    if ltb s.offset (length file)
    then if leb (s.sf + s.sw) s.sn then wait clock s sel else send_data (clock 0) file s
    else send_eot (clock 0) s

-- A turn of `while (Sf < Sn)`, or the return behind it.
unfoldable pub drain_round : (ℕ → ℕ) → Sender → Select → Sender × List Call
drain_round clock s sel =
    if ltb s.sf s.sn then wait clock s sel else (record s { phase = finished }, [])

unfoldable pub round_in : Phase → (ℕ → ℕ) → List ℕ → Sender → Select → Sender × List Call
round_in sending clock file s sel = main_round clock file s sel
round_in draining clock file s sel = drain_round clock s sel
round_in finished clock file s sel = (s, [])

unfoldable pub round : (ℕ → ℕ) → List ℕ → Sender → Select → Sender × List Call
round clock file s sel = round_in s.phase clock file s sel
