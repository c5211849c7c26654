-- ===== src/Lab1/Link/Chunks.antt =====
-- lab1/sender.c: the frame with the next bytes of the file, as the receiver takes it.
use network_lab.Prelude.{
  ℕ, zero, ◌+◌, ◌-◌, ◌^◌, ◌≤◌, ◌<◌, ◌≡◌, refl, ap, sym, ◌∙◌, true, false, List, ◌++◌, u16, take,
  drop, replicate, length, ltb, arith, length-append, length-replicate, length-take, length-drop,
  take-append, take-all, drop-all, drop-add,
}
use native.Mathlib.Decide.{dec_lt}
use network_lab.Lab1.Checksum.Sum.{IsBytes}
use network_lab.Lab1.Scheme.{Scheme}
use network_lab.Lab1.Frame.{IsFrame, to_bytes}
use network_lab.Lab1.Frame.Bytes.{
  of_bytes-to_bytes, IsBytes-append, IsBytes-replicate, IsBytes-drop, IsBytes-take,
}
use network_lab.Lab1.Link.{chunk_len, fill, seal_with, Receiver, take_frame}
use network_lab.Lab1.Link.Trailer.{seal_with-Accepted}

module _ (file : List ℕ) (offset : ℕ) where
  chunk : List ℕ
  chunk = take (chunk_len (length file) offset) (drop offset file)

  length-chunk : length chunk ≡ chunk_len (length file) offset
  unfolding chunk chunk_len
  length-chunk = ground (
    arith,
    length-take (chunk_len (length file) offset) (drop offset file),
    length-drop offset file,
  )

  pub chunk_len-le : chunk_len (length file) offset ≤ 44
  unfolding chunk_len
  chunk_len-le = ground arith

  pub chunk_len-more :
      (m : ℕ)
      → length file ≤ offset + 44 + m
      → length file ≤ offset + chunk_len (length file) offset + m
  unfolding chunk_len
  chunk_len-more m h = ground arith

  -- A chunk of 44 bytes, or all that is left.
  take-chunk_len : chunk ≡ take 44 (drop offset file)
  unfolding chunk chunk_len
  take-chunk_len = elim (dec_lt 44 (length file - offset)) [
    | yes h ↦ let test : ltb 44 (length file - offset) ≡ true = ground arith in rw test refl
    | no h ↦
        let test : ltb 44 (length file - offset) ≡ false = ground arith in
        rw test (
          take-all (length file - offset) (drop offset file)
            (omega (arith, length-drop offset file))
          ∙ sym (take-all 44 (drop offset file) (omega (arith, length-drop offset file))))
  ]

  pub drop-chunk_len :
      drop (offset + chunk_len (length file) offset) file ≡ drop 44 (drop offset file)
  unfolding chunk_len
  drop-chunk_len = elim (dec_lt 44 (length file - offset)) [
    | yes h ↦
        let test : ltb 44 (length file - offset) ≡ true = ground arith in
        rw test (sym (drop-add offset 44 file))
    | no h ↦
        let test : ltb 44 (length file - offset) ≡ false = ground arith in
        rw test (
          drop-all (offset + (length file - offset)) file (omega arith)
          ∙ sym (drop-all (offset + 44) file (omega arith))
          ∙ sym (drop-add offset 44 file))
  ]

  module _ (bytes : IsBytes file) (seq : ℕ) (small : seq < 2 ^ 16) where
    fill-IsFrame : IsFrame (fill file offset seq)
    unfolding fill chunk
    fill-IsFrame = record {
      type_fits = omega arith;
      src_size = refl;
      src_bytes = omega arith;
      dest_size = refl;
      dest_bytes = omega arith;
      len_fits = omega arith;
      seq_fits = small;
      payload_size = omega (
        arith,
        length-append chunk (replicate (44 - length chunk) 0),
        length-replicate (44 - length chunk) zero,
        length-chunk,
        chunk_len-le,
      );
      payload_bytes =
          IsBytes-append chunk (replicate (44 - length chunk) 0)
            (IsBytes-take (chunk_len (length file) offset) _ (IsBytes-drop offset file bytes))
            (IsBytes-replicate (44 - length chunk));
      fcs_fits = omega arith;
    }

    fill-blank : (fill file offset seq).trailer.fcs ≡ 0
    unfolding fill
    fill-blank = refl

    fill-payload :
        take (fill file offset seq).header.frame_len (fill file offset seq).payload
        ≡ take 44 (drop offset file)
    unfolding fill chunk
    fill-payload =
        let len : u16 (chunk_len (length file) offset) ≡ length chunk =
          omega (arith, length-chunk, chunk_len-le) in
        rw len (take-append chunk _) ∙ take-chunk_len

    -- The receiver appends the chunk.
    pub take_frame-fill :
        (scheme : Scheme) (r : Receiver)
        → ((take_frame scheme r (to_bytes (seal_with scheme (fill file offset seq)))).output
            ≡ r.output ++ take 44 (drop offset file))
          × ((take_frame scheme r (to_bytes (seal_with scheme (fill file offset seq)))).rejected
              ≡ r.rejected)
    unfolding take_frame seal_with
    take_frame-fill scheme r =
        let (fits, accepted) = seal_with-Accepted fill-IsFrame fill-blank scheme in
        rw (accepted, of_bytes-to_bytes fits) (ap (λ p. r.output ++ p) fill-payload, refl)
