-- ===== src/Lab2/SelectiveRepeat/Receiver.antt =====
-- lab2/arq/receiver.c: `receiver_sr_mode`.
use network_lab.Prelude.{
  ℕ, zero, suc, ◌+◌, ◌-◌, ◌%◌, Bool, true, false, List, [], ◌∷◌, ◌++◌, ◌&&◌, ◌||◌, not, u16, u32,
  ◌<<<◌, take, ltb, leb, ◌==◌, if◌then◌else◌,
}
use network_lab.Lab1.Frame.{Frame, zero_frame, to_bytes, of_bytes}
use network_lab.Lab1.Frame.Seal.{fcs_matches}
use network_lab.Lab2.Arq.{ArqStats, zero_stats, frame_data, frame_ack, frame_nak, reply_frame}
use network_lab.Lab2.Arq.Window.{store}

-- The locals of the function, the output file, the counters, and whether the loop has been left.
pub record Receiver : Type 0 where
  pub rn : ℕ
  pub nak_sent : Bool
  pub ack_needed : Bool
  pub buffer : ℕ → Frame
  pub marked : ℕ → Bool
  pub output : List ℕ
  pub stats : ArqStats
  pub stopped : Bool

abbrev pub start : Receiver
start = record {
  rn = 0;
  nak_sent = false;
  ack_needed = false;
  buffer = λ _. zero_frame;
  marked = λ _. false;
  output = [];
  stats = zero_stats;
  stopped = false;
}

abbrev pub mark : (ℕ → Bool) → ℕ → Bool → ℕ → Bool
mark marked slot b i = if i == slot then b else marked i

-- `if (!nak_sent)`: a NAK for the expected frame.
unfoldable pub nak_unless_sent : Receiver → Receiver × List (List ℕ)
nak_unless_sent r =
    if r.nak_sent
    then (r, [])
    else (record r { nak_sent = true }, to_bytes (reply_frame frame_nak r.rn) ∷ [])

unfoldable pub corrupted : Receiver → Receiver × List (List ℕ)
corrupted r =
    let (r', replies) = nak_unless_sent r in
    (
      record r' {
        stats = record (r'.stats) { corrupted_count = u32 (r'.stats.corrupted_count + 1) };
      },
      replies,
    )

-- BUFFER OUT-OF-ORDER FRAME
unfoldable pub buffer_frame : Receiver → Frame → Receiver
buffer_frame r frame =
    let slot = frame.header.frame_seq % 256 in
    record r { buffer = store r.buffer slot frame; marked = mark r.marked slot true }

-- One turn of the delivery loop. `fwrite` reads 44 payload bytes at most: the frames of the
-- senders say no more in `frame_len`.
unfoldable pub deliver : Receiver → Receiver
deliver r =
    let frame = r.buffer (r.rn % 256) in
    record r {
      output = r.output ++ take frame.header.frame_len frame.payload;
      stats = record (r.stats) { frames_sent = u32 (r.stats.frames_sent + 1) };
      marked = mark r.marked (r.rn % 256) false;
      rn = u16 (r.rn + 1);
      ack_needed = true;
    }

-- `while (marked[Rn % 256])`, with fuel and `eot_delivered`. A turn clears one of the 256 marks, so
-- 256 turns are enough.
unfoldable pub deliver_marked : ℕ → Receiver → Bool → Receiver × Bool
deliver_marked zero r eot_delivered = (r, eot_delivered)
deliver_marked (suc fuel) r eot_delivered =
    let rest =
      deliver_marked fuel (deliver r)
        (eot_delivered || ((r.buffer (r.rn % 256)).header.frame_len == 0)) in
    if r.marked (r.rn % 256) then rest else (r, eot_delivered)

-- `Sw`, half of the sequence numbers, for a window size of at least 1
abbrev pub window : ℕ → ℕ
window window_size = u16 (1 <<< (window_size - 1))

unfoldable pub in_window : ℕ → Receiver → ℕ → Bool
in_window sw r seq_no = leb r.rn seq_no && (ltb seq_no (r.rn + sw) && not (r.marked (seq_no % 256)))

-- The frame is buffered and what can be delivered is, if the frame is in the window and new.
unfoldable pub take_in : ℕ → Receiver → Frame → Receiver × Bool
take_in sw r frame =
    if in_window sw r frame.header.frame_seq
    then deliver_marked 256 (buffer_frame r frame) false
    else (r, false)

-- SEND ACK AFTER DELIVERY
unfoldable pub acknowledge : Receiver → Bool → Receiver × List (List ℕ)
acknowledge r eot_delivered =
    if r.ack_needed
    then (
      record r {
        stats = record (r.stats) { acks_received = u32 (r.stats.acks_received + 1) };
        ack_needed = false;
        nak_sent = false;
        stopped = eot_delivered;
      },
      to_bytes (reply_frame frame_ack r.rn) ∷ [],
    )
    else (r, [])

-- A DATA frame that has passed the check.
unfoldable pub on_data : ℕ → Receiver → Frame → Receiver × List (List ℕ)
on_data sw r frame =
    let (r1, naks) = if frame.header.frame_seq == r.rn then (r, []) else nak_unless_sent r in
    let (r2, eot_delivered) = take_in sw r1 frame in
    let (r3, acks) = acknowledge r2 eot_delivered in (r3, naks ++ acks)

-- One turn of the loop on a whole frame, and the replies that it sends. The exit of the loop when the
-- connection is closed or in error stands before it and is not modelled.
unfoldable pub on_frame : ℕ → Receiver → List ℕ → Receiver × List (List ℕ)
on_frame sw r bytes =
    if fcs_matches bytes
    then if (of_bytes bytes).header.frame_type == frame_data
      then on_data sw r (of_bytes bytes)
      else (r, [])
    else corrupted r
