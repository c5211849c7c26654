-- ===== src/Lab1/Frame/Seal.antt =====
-- The frame check sequence of a frame under the 16-bit checksum, as lab2 writes and checks it.
use network_lab.Prelude.{ℕ, ◌-◌, Bool, List, ◌==◌}
use mathlib.Core.Option
use network_lab.Lab1.Scheme.{checksum16, compute_fcs}
use network_lab.Lab1.Frame.{Frame, frame_size, trailer_size, to_bytes, of_bytes}

-- `compute_fcs(SCHEME_CHECKSUM16, (uint8_t *)&frame, FRAME_SIZE - TRAILER_SIZE)`. The 61 bytes are
-- odd, so the last word takes in the first byte of the trailer; the array is the whole frame, so
-- the read stays inside it and the default is not used.
unfoldable pub fcs_of : List ℕ → ℕ
fcs_of bytes = Option.get_or (compute_fcs checksum16 bytes (frame_size - trailer_size)) 0

-- `frame.trailer.fcs = htonl(fcs)`, with the sequence computed on the frame as it stands.
unfoldable pub seal : Frame → Frame
seal f = record f { trailer = record { fcs = fcs_of (to_bytes f) } }

-- `expected_fcs == received_fcs`
unfoldable pub fcs_matches : List ℕ → Bool
fcs_matches bytes = fcs_of bytes == (of_bytes bytes).trailer.fcs
