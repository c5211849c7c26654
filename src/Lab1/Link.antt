-- ===== src/Lab1/Link.antt =====
-- lab1/sender.c and lab1/receiver.c: a file goes through a socket in frames with check sequences.
pub mod Trailer
pub mod Chunks
pub mod Transfer
mod Tests
use network_lab.Prelude.{
  ℕ, ◌+◌, ◌-◌, ◌*◌, ◌%◌, ◌^◌, Bool, true, false, List, [], ◌∷◌, ◌++◌, u16, take, drop, replicate,
  length, ltb, if◌then◌else◌,
}
use mathlib.Core.Option
use network_lab.Lab1.Scheme.{Scheme, compute_fcs, verify_fcs}
use network_lab.Lab1.Frame.{Frame, header_size, payload_size, trailer_size, to_bytes, of_bytes}

-- `file_size - offset`, and 44 where that is more
unfoldable pub chunk_len : ℕ → ℕ → ℕ
chunk_len file_size offset =
    if ltb payload_size (file_size - offset) then payload_size else file_size - offset

-- The frame before its check sequence is computed, with placeholder addresses.
unfoldable pub fill : List ℕ → ℕ → ℕ → Frame
fill file offset seq =
    let chunk = take (chunk_len (length file) offset) (drop offset file) in
    record {
      header = record {
        frame_type = 0;
        src_addr = replicate 6 0xaa;
        dest_addr = replicate 6 0xbb;
        frame_len = u16 (chunk_len (length file) offset);
        frame_seq = seq;
      };
      payload = chunk ++ replicate (payload_size - length chunk) 0;
      trailer = record { fcs = 0 };
    }

-- `frame.trailer.fcs = htonl(fcs)`. The sequence covers 61 of the 65 bytes, and one byte behind them
-- under the checksum, so the read stays inside the frame and the default is not used.
unfoldable pub seal_with : Scheme → Frame → Frame
seal_with scheme f = record f {
  trailer = record {
    fcs = Option.get_or (compute_fcs scheme (to_bytes f) (header_size + payload_size)) 0;
  };
}

-- Whether the main loop has come to the end of the file, was left by a `send_all` that did not send
-- its frame, or is in `send_all`.
pub data SendEnd : Type 0 where
  file_sent send_failed sending : SendEnd

-- The main loop of the sender: the frames that it has sent whole. The list says for each call of
-- `send_all` whether it returned FRAME_SIZE.
unfoldable pub send_frames : Scheme → List ℕ → List Bool → ℕ → ℕ → List (List ℕ) × SendEnd
send_frames scheme file [] offset seq =
    ([], (if ltb offset (length file) then sending else file_sent))
send_frames scheme file (sent ∷ more) offset seq =
    let rest =
      send_frames scheme file more (offset + chunk_len (length file) offset) (u16 (seq + 1)) in
    if ltb offset (length file)
    then (if sent
        then (to_bytes (seal_with scheme (fill file offset seq)) ∷ rest.0, rest.1)
        else ([], send_failed))
    else ([], file_sent)

-- `recv_all` has returned FRAME_SIZE, 0 or -1.
pub data Received : Type 0 where
  got_frame : List ℕ → Received
  closed recv_error : Received

pub record Receiver : Type 0 where
  pub output : List ℕ
  pub accepted : ℕ
  pub rejected : ℕ

abbrev pub start : Receiver
start = record { output = []; accepted = 0; rejected = 0 }

-- `verify_fcs` on the 65 bytes of a frame; the default is not used.
unfoldable pub accepts : Scheme → List ℕ → Bool
accepts scheme bytes =
    Option.get_or
      (verify_fcs scheme bytes (header_size + payload_size) (of_bytes bytes).trailer.fcs) false

abbrev pub size_t : ℕ → ℕ
size_t n = n % 2 ^ 64

-- One turn of the loop on a frame. `fwrite` reads 44 payload bytes at most: the frames of the sender
-- say no more in `frame_len`.
unfoldable pub take_frame : Scheme → Receiver → List ℕ → Receiver
take_frame scheme r bytes =
    let frame = of_bytes bytes in
    if accepts scheme bytes
    then record r {
      output = r.output ++ take frame.header.frame_len frame.payload;
      accepted = size_t (r.accepted + 1);
    }
    else record r { rejected = size_t (r.rejected + 1) }

-- How the loop of the receiver was left, or that it waits.
pub data ReceiveEnd : Type 0 where
  connection_closed receive_failed receiving : ReceiveEnd

unfoldable pub receive_frames : Scheme → List Received → Receiver → Receiver × ReceiveEnd
receive_frames scheme [] r = (r, receiving)
receive_frames scheme (got_frame bytes ∷ more) r =
    receive_frames scheme more (take_frame scheme r bytes)
receive_frames scheme (closed ∷ more) r = (r, connection_closed)
receive_frames scheme (recv_error ∷ more) r = (r, receive_failed)
