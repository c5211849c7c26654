-- ===== src/Lab2/Arq/Frames.antt =====
-- The frames of lab2/arq are well-formed, sealed, and read back as they were built.
use network_lab.Prelude.{
  ℕ, zero, ◌-◌, ◌*◌, ◌%◌, ◌^◌, ◌<◌, ◌≤◌, ◌≡◌, refl, sym, ap, ◌∙◌, false, List, length,
  length-append, length-replicate, length-take, take-append, take-all, drop-all, lt→ltb,
  length-drop, take, drop, replicate, arith, ltb,
}
use native.Mathlib.Decide.{dec_lt}
use network_lab.Lab1.Checksum.Sum.{IsBytes}
use network_lab.Lab1.Frame.{Frame}
use network_lab.Lab1.Frame.Bytes.{IsBytes-append, IsBytes-replicate, IsBytes-drop, IsBytes-take}
use network_lab.Lab1.Frame.Seal.{seal}
use network_lab.Lab2.Arq.{make_frame, chunk_len, data_frame, eot_frame, frame_data}
use network_lab.Lab2.Channel.Flight.{IsSealed}

pub make_frame-IsSealed :
    (t seq : ℕ) (chunk : List ℕ)
    → t < 256
    → length chunk ≤ 44
    → IsBytes chunk
    → IsSealed (make_frame t seq chunk)
unfolding make_frame
make_frame-IsSealed t seq chunk ht hl hb = record {
  base = _;
  base_fits = record {
    type_fits = ht;
    src_size = refl;
    src_bytes = IsBytes-replicate 6;
    dest_size = refl;
    dest_bytes = IsBytes-replicate 6;
    len_fits = omega arith;
    seq_fits = omega arith;
    payload_size = omega (
      arith,
      length-append chunk (replicate (44 - length chunk) 0),
      length-replicate (44 - length chunk) (zero),
    );
    payload_bytes =
        IsBytes-append chunk (replicate (44 - length chunk) 0) hb
          (IsBytes-replicate (44 - length chunk));
    fcs_fits = omega arith;
  };
  blank = refl;
  is_seal = refl;
}

-- The length field says how much of the payload is the chunk.
pub make_frame-payload :
    (t seq : ℕ) (chunk : List ℕ)
    → length chunk ≤ 44
    → take (make_frame t seq chunk).header.frame_len (make_frame t seq chunk).payload ≡ chunk
unfolding make_frame seal
make_frame-payload t seq chunk h =
    let e : length chunk % 2 ^ 16 ≡ length chunk = omega arith in rw e (take-append chunk _)

pub make_frame-fields :
    (t seq : ℕ) (chunk : List ℕ)
    → length chunk ≤ 44
    → seq < 2 ^ 16
    → ((make_frame t seq chunk).header.frame_type ≡ t)
      × ((make_frame t seq chunk).header.frame_seq ≡ seq)
      × ((make_frame t seq chunk).header.frame_len ≡ length chunk)
unfolding make_frame seal
make_frame-fields t seq chunk h k = (refl, omega arith, omega arith)

pub make_frame-len :
    (t seq : ℕ) (chunk : List ℕ)
    → length chunk ≤ 44
    → (make_frame t seq chunk).header.frame_len ≡ length chunk
unfolding make_frame seal
make_frame-len t seq chunk h = omega arith

-- The 44 bytes of the file that frame `k` carries, fewer at its end, none behind it.
abbrev pub chunk : List ℕ → ℕ → List ℕ
chunk file k = take 44 (drop (44 * k) file)

abbrev pub nth_frame : List ℕ → ℕ → Frame
nth_frame file k = make_frame frame_data k (chunk file k)

pub length-chunk : (file : List ℕ) (k : ℕ) → length (chunk file k) ≤ 44
length-chunk file k = omega (arith, length-take 44 (drop (44 * k) file))

no_test : {n : ℕ} → ¬ (44 < n) → ltb 44 n ≡ false
no_test h = ground arith

take-chunk_len :
    (file : List ℕ) (offset : ℕ)
    → take (chunk_len file offset) (drop offset file) ≡ take 44 (drop offset file)
unfolding chunk_len
take-chunk_len file offset = elim (dec_lt 44 (length file - offset)) [
  | yes h ↦ rw (lt→ltb 44 (length file - offset) h)
  | no h ↦ rw (no_test h) (
      take-all (length file - offset) (drop offset file) (omega (arith, length-drop offset file))
      ∙ sym (take-all 44 (drop offset file) (omega (arith, length-drop offset file))))
]

-- The sequence number is any, as in Stop-and-Wait.
pub data_frame-chunk :
    (file : List ℕ) (k seq : ℕ)
    → data_frame file (44 * k) seq ≡ make_frame frame_data seq (chunk file k)
unfolding data_frame
data_frame-chunk file k seq = rw (take-chunk_len file (44 * k))

pub eot_frame-chunk :
    (file : List ℕ) (k seq : ℕ)
    → length file ≤ 44 * k
    → eot_frame seq ≡ make_frame frame_data seq (chunk file k)
unfolding eot_frame
eot_frame-chunk file k seq h =
    ap (λ d. make_frame frame_data seq (take 44 d)) (sym (drop-all (44 * k) file h))

pub data_frame-nth : (file : List ℕ) (k : ℕ) → data_frame file (44 * k) k ≡ nth_frame file k
data_frame-nth file k = data_frame-chunk file k k

pub eot_frame-nth : (file : List ℕ) (k : ℕ) → length file ≤ 44 * k → eot_frame k ≡ nth_frame file k
eot_frame-nth file k h = eot_frame-chunk file k k h

pub chunk-IsBytes : (file : List ℕ) (k : ℕ) → IsBytes file → IsBytes (chunk file k)
chunk-IsBytes file k b = IsBytes-take 44 _ (IsBytes-drop (44 * k) file b)

pub nth_frame-IsSealed : (file : List ℕ) (k : ℕ) → IsBytes file → IsSealed (nth_frame file k)
nth_frame-IsSealed file k b =
    make_frame-IsSealed frame_data k (chunk file k) (omega arith) (length-chunk file k)
      (chunk-IsBytes file k b)
