-- ===== src/Lab1/Frame.antt =====
-- lab1/frame.h: the 65-byte frame, and the view of it as bytes that the code takes by a cast.
-- The 16- and 32-bit fields are kept as the numbers that `ntohs` and `ntohl` read; their bytes
-- stand in network order.
pub mod Bytes
pub mod Seal
pub mod Detect
pub mod Sealed
use network_lab.Prelude.{
  ℕ, zero, suc, ◌+◌, ◌*◌, ◌/◌, ◌%◌, ◌^◌, ◌≤◌, ◌<◌, ◌≡◌, List, [], ◌∷◌, ◌++◌, take, drop, get_or,
  length, replicate,
}
use network_lab.Lab1.Checksum.Sum.{IsBytes}

abbrev pub header_size : ℕ
header_size = 17

abbrev pub payload_size : ℕ
payload_size = 44

abbrev pub trailer_size : ℕ
trailer_size = 4

abbrev pub frame_size : ℕ
frame_size = header_size + payload_size + trailer_size

pub record FrameHeader : Type 0 where
  pub frame_type : ℕ
  pub src_addr : List ℕ
  pub dest_addr : List ℕ
  pub frame_len : ℕ
  pub frame_seq : ℕ

pub record FrameTrailer : Type 0 where
  pub fcs : ℕ

pub record Frame : Type 0 where
  pub header : FrameHeader
  pub payload : List ℕ
  pub trailer : FrameTrailer

-- `frame_t frame = {0}`
abbrev pub zero_frame : Frame
zero_frame = record {
  header = record {
    frame_type = 0;
    src_addr = replicate 6 0;
    dest_addr = replicate 6 0;
    frame_len = 0;
    frame_seq = 0;
  };
  payload = replicate 44 0;
  trailer = record { fcs = 0 };
}

-- `htons` and `htonl`, as the bytes in memory
abbrev pub be16 : ℕ → List ℕ
be16 n = (n / 256 % 256) ∷ (n % 256) ∷ []

abbrev pub be32 : ℕ → List ℕ
be32 n = (n / 16777216 % 256) ∷ (n / 65536 % 256) ∷ (n / 256 % 256) ∷ (n % 256) ∷ []

-- The bytes that the frame check sequence covers.
unfoldable pub covered : Frame → List ℕ
covered f =
    f.header.frame_type
    ∷ (f.header.src_addr
        ++ (f.header.dest_addr
            ++ (be16 f.header.frame_len ++ (be16 f.header.frame_seq ++ f.payload))))

-- What the cast `(uint8_t *)&frame` of the packed struct shows, with the `htons` and `htonl` that the
-- senders apply to its fields.
unfoldable pub to_bytes : Frame → List ℕ
to_bytes f = covered f ++ be32 f.trailer.fcs

-- The fields of a `frame_t` that `recv_all` has filled with these 65 bytes, with the `ntohs` and `ntohl`
-- that the receivers apply to them.
unfoldable pub of_bytes : List ℕ → Frame
of_bytes b =
    let src = drop 1 b in
    let dest = drop 6 src in
    let len = drop 6 dest in
    let seq = drop 2 len in
    let payload = drop 2 seq in
    let fcs = drop 44 payload in
    record {
      header = record {
        frame_type = get_or b 0 0;
        src_addr = take 6 src;
        dest_addr = take 6 dest;
        frame_len = get_or len 0 0 * 256 + get_or len 1 0;
        frame_seq = get_or seq 0 0 * 256 + get_or seq 1 0;
      };
      payload = take 44 payload;
      trailer = record {
        fcs =
            get_or fcs 0 0 * 16777216
            + get_or fcs 1 0 * 65536
            + get_or fcs 2 0 * 256
            + get_or fcs 3 0;
      };
    }

-- The fields have their C widths.
pub record IsFrame (f : Frame) : Type 0 where
  pub type_fits : f.header.frame_type < 256
  pub src_size : length f.header.src_addr ≡ 6
  pub src_bytes : IsBytes f.header.src_addr
  pub dest_size : length f.header.dest_addr ≡ 6
  pub dest_bytes : IsBytes f.header.dest_addr
  pub len_fits : f.header.frame_len < 2 ^ 16
  pub seq_fits : f.header.frame_seq < 2 ^ 16
  pub payload_size : length f.payload ≡ 44
  pub payload_bytes : IsBytes f.payload
  pub fcs_fits : f.trailer.fcs < 2 ^ 32
