-- ===== src/Lab2/Arq/Payload.antt =====
-- What a receiver reads in a frame of the file, and how it adds to the output.
use network_lab.Prelude.{
  ℕ, ◌+◌, ◌-◌, ◌*◌, ◌^◌, ◌<◌, ◌≡◌, ap, ap₂, ◌∙◌, List, ◌++◌, length, take, drop, arith, take-add,
  length-take, length-drop,
}
use Prim.Native.Nat.{min}
use network_lab.Lab1.Frame.{Frame}
use network_lab.Lab1.Frame.Seal.{seal}
use network_lab.Lab2.Arq.{frame_data, make_frame}
use network_lab.Lab2.Arq.Frames.{
  chunk, nth_frame, make_frame-fields, make_frame-len, make_frame-payload, length-chunk,
}

module _ (file : List ℕ) (k seq : ℕ) {f : Frame}
    (is_chunk : f ≡ make_frame frame_data seq (chunk file k)) where
  payload-chunk : take f.header.frame_len f.payload ≡ chunk file k
  payload-chunk =
      ap (λ g. take g.header.frame_len g.payload) is_chunk
      ∙ make_frame-payload frame_data seq (chunk file k) (length-chunk file k)

  pub chunk_frame-seq : seq < 2 ^ 16 → f.header.frame_seq ≡ seq
  chunk_frame-seq small = omega (
    arith,
    ap (λ g. g.header.frame_seq) is_chunk,
    make_frame-fields frame_data seq (chunk file k) (length-chunk file k) small,
  )

  pub chunk_frame-type : f.header.frame_type ≡ frame_data
  unfolding make_frame seal
  chunk_frame-type = ap (λ g. g.header.frame_type) is_chunk

  pub chunk_frame-len : f.header.frame_len ≡ min 44 (length file - 44 * k)
  chunk_frame-len = omega (
    arith,
    ap (λ g. g.header.frame_len) is_chunk,
    make_frame-len frame_data seq (chunk file k) (length-chunk file k),
    length-take 44 (drop (44 * k) file),
    length-drop (44 * k) file,
  )

  -- The output grows by chunk `k` of the file when it is the beginning of the file up to there.
  pub written-chunk :
      {output : List ℕ}
      → output ≡ take (44 * k) file
      → output ++ take f.header.frame_len f.payload ≡ take (44 * k + 44) file
  written-chunk written = ap₂ ◌++◌ written payload-chunk ∙ take-add (44 * k) 44 file

module _ (file : List ℕ) (k : ℕ) {f : Frame} (is_nth : f ≡ nth_frame file k) where
  pub nth_frame-seq : k < 2 ^ 16 → f.header.frame_seq ≡ k
  nth_frame-seq small = chunk_frame-seq file k k is_nth small

  pub nth_frame-len : f.header.frame_len ≡ min 44 (length file - 44 * k)
  nth_frame-len = chunk_frame-len file k k is_nth

pub written-append :
    (file : List ℕ) (k : ℕ) {f : Frame} {output : List ℕ}
    → output ≡ take (44 * k) file
    → f ≡ nth_frame file k
    → output ++ take f.header.frame_len f.payload ≡ take (44 * k + 44) file
written-append file k written is_nth = written-chunk file k k is_nth written
