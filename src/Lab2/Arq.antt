-- ===== src/Lab2/Arq.antt =====
-- lab2/arq/arq.h, and what the three modes of sender.c and receiver.c write alike: the frames that
-- they build, the counters, and the calls that they make of the channel and the timers.
pub mod Frames
pub mod Window
pub mod Calls
pub mod Genuine
pub mod Payload
pub mod Progress
pub mod Reports
use network_lab.Prelude.{
  ℕ, ◌-◌, Bool, List, [], ◌++◌, u16, length, replicate, take, drop, ltb, if◌then◌else◌,
}
use network_lab.Lab1.Frame.{Frame, zero_frame, payload_size}
use network_lab.Lab1.Frame.Seal.{seal}

-- FRAME_DATA, FRAME_ACK, FRAME_NAK
abbrev pub frame_data : ℕ
frame_data = 0

abbrev pub frame_ack : ℕ
frame_ack = 1

abbrev pub frame_nak : ℕ
frame_nak = 2

-- `arq_stats_t` without its times
pub record ArqStats : Type 0 where
  pub frames_sent : ℕ
  pub frames_retransmitted : ℕ
  pub acks_received : ℕ
  pub corrupted_count : ℕ

abbrev pub zero_stats : ArqStats
zero_stats = record {
  frames_sent = 0;
  frames_retransmitted = 0;
  acks_received = 0;
  corrupted_count = 0;
}

-- The calls that a round of a sender makes, in order.
pub data Call : Type 0 where
  mark_send_time : ℕ → Call
  channel_send : List ℕ → Call
  timer_start_window : Call
  timer_stop_window : Call
  record_rtt : ℕ → Call

-- How a wait in `select` ends: with an error, at the timeout, or with frames to read, behind which
-- the peer may have closed the connection.
pub data Select : Type 0 where
  failed timeout : Select
  arrived : List (List ℕ) → Bool → Select

-- `chunk_len`, at an offset below the size of the file
unfoldable pub chunk_len : List ℕ → ℕ → ℕ
chunk_len file offset =
    let left = length file - offset in if ltb payload_size left then payload_size else left

-- A frame of the given type, sequence number and payload, with its check sequence.
unfoldable pub make_frame : ℕ → ℕ → List ℕ → Frame
make_frame frame_type seq chunk = seal (record zero_frame {
  header = record (zero_frame.header) {
    frame_type = frame_type;
    frame_len = u16 (length chunk);
    frame_seq = u16 seq;
  };
  payload = chunk ++ replicate (payload_size - length chunk) 0;
})

-- CREATE DATA FRAME
unfoldable pub data_frame : List ℕ → ℕ → ℕ → Frame
unfolding chunk_len
data_frame file offset seq =
    make_frame frame_data seq (take (chunk_len file offset) (drop offset file))

-- SEND END-OF-TRANSMISSION FRAME
unfoldable pub eot_frame : ℕ → Frame
eot_frame seq = make_frame frame_data seq []

-- An ACK or NAK frame.
unfoldable pub reply_frame : ℕ → ℕ → Frame
reply_frame frame_type seq = make_frame frame_type seq []
