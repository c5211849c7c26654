-- ===== src/Lab1/Link/Transfer.antt =====
-- lab1/sender.c and lab1/receiver.c: what the receiver writes of what the sender sends.
use network_lab.Prelude.{
  ℕ, zero, suc, ◌+◌, ◌*◌, ◌^◌, ◌≤◌, ◌<◌, ◌≡◌, refl, ap, ap₂, sym, ◌∙◌, inl, inr, Bool, true, false,
  List, [], ◌∷◌, ◌++◌, map, u16, take, drop, replicate, length, ltb, ltb→lt, arith, Bool-cases,
  take-all, take-add, if◌then◌else◌,
}
use mathlib.Core.List.{append_assoc, append-nil}
use network_lab.Lab1.Checksum.Sum.{IsBytes}
use network_lab.Lab1.Scheme.{Scheme}
use network_lab.Lab1.Frame.{to_bytes}
use network_lab.Lab1.Link.{
  chunk_len, fill, seal_with, SendEnd, file_sent, send_failed, sending, send_frames, Received,
  got_frame, closed, Receiver, start, take_frame, ReceiveEnd, connection_closed, receive_frames,
}
use network_lab.Lab1.Link.Chunks.{chunk_len-le, chunk_len-more, drop-chunk_len, take_frame-fill}

-- What the receiver's calls of `recv_all` return when these frames were sent and the sender has gone.
abbrev pub arrivals : List (List ℕ) → List Received
arrivals frames = map got_frame frames ++ (closed ∷ [])

abbrev Whole : List ℕ → ℕ → SendEnd → Type 0
Whole file upto file_sent = length file ≤ upto
Whole file upto send_failed = Unit {0}
Whole file upto sending = Unit {0}

Whole-later : (file : List ℕ) {m n : ℕ} (e : SendEnd) → m ≤ n → Whole file m e → Whole file n e
Whole-later file file_sent h w = omega arith
Whole-later file send_failed h w = tt
Whole-later file sending h w = tt

module _ (scheme : Scheme) (file : List ℕ) where
  record Outcome (offset : ℕ) (r : Receiver) (sent : List (List ℕ) × SendEnd)
      (t : Receiver × ReceiveEnd) : Type 0 where
    written : t.0.output ≡ r.output ++ take (44 * length sent.0) (drop offset file)
    none_rejected : t.0.rejected ≡ r.rejected
    over : t.1 ≡ connection_closed
    whole : Whole file (offset + 44 * length sent.0) sent.1

  nothing_sent :
      (offset : ℕ) (r : Receiver) (e : SendEnd)
      → Whole file (offset + 44 * 0) e
      → Outcome offset r ([], e) (receive_frames scheme (arrivals []) r)
  unfolding receive_frames
  nothing_sent offset r e w = record {
    written = sym (append-nil r.output);
    none_rejected = refl;
    over = refl;
    whole = w;
  }

  Whole-test :
      (offset : ℕ)
      → Whole file (offset + 44 * 0) (if ltb offset (length file) then sending else file_sent)
  Whole-test offset = elim (Bool-cases (ltb offset (length file))) [
    | inl e ↦ rw e tt
    | inr e ↦ let le : length file ≤ offset + 44 * 0 = ground arith in rw e le
  ]

  -- One more frame in front.
  frame_sent :
      (offset seq : ℕ) (r : Receiver) (rest : List (List ℕ) × SendEnd)
      → IsBytes file
      → seq < 2 ^ 16
      → Outcome
          (offset + chunk_len (length file) offset)
          (take_frame scheme r (to_bytes (seal_with scheme (fill file offset seq))))
          rest
          (receive_frames scheme
            (arrivals rest.0)
            (take_frame scheme r (to_bytes (seal_with scheme (fill file offset seq)))))
      → Outcome offset r
          (to_bytes (seal_with scheme (fill file offset seq)) ∷ rest.0, rest.1)
          (receive_frames scheme
            (arrivals (to_bytes (seal_with scheme (fill file offset seq)) ∷ rest.0))
            r)
  unfolding receive_frames
  frame_sent offset seq r rest bytes small o =
      let (out, kept) = take_frame-fill file offset bytes seq small scheme r in
      let k = length rest.0 in
      let left = drop offset file in
      let joined =
        ap₂ ◌++◌ out (ap (take (44 * k)) (drop-chunk_len file offset))
        ∙ append_assoc r.output (take 44 left) (take (44 * k) (drop 44 left))
        ∙ ap (λ p. r.output ++ p)
            (take-add 44 (44 * k) left ∙ ap (λ m. take m left) (omega arith)) in
      record {
        written = o.written ∙ joined;
        none_rejected = o.none_rejected ∙ kept;
        over = o.over;
        whole = Whole-later file rest.1 (omega (arith, chunk_len-le file offset)) o.whole;
      }

  send_frames-Outcome :
      (oks : List Bool) (offset seq : ℕ) (r : Receiver)
      → IsBytes file
      → seq < 2 ^ 16
      → Outcome offset r
          (send_frames scheme file oks offset seq)
          (receive_frames scheme (arrivals (send_frames scheme file oks offset seq).0) r)
  unfolding send_frames
  send_frames-Outcome [] offset seq r bytes small = nothing_sent offset r _ (Whole-test offset)
  send_frames-Outcome (ok ∷ oks) offset seq r bytes small =
      elim (Bool-cases (ltb offset (length file))) [
        | inr e ↦ rw e (nothing_sent offset r file_sent (ground arith))
        | inl e ↦ elim (Bool-cases ok) [
          | inr f ↦ rw (e, f) (nothing_sent offset r send_failed tt)
          | inl f ↦
              rw (e, f)
                (frame_sent offset seq r
                  (send_frames scheme file oks (offset + chunk_len (length file) offset)
                    (u16 (seq + 1)))
                  bytes small
                  (send_frames-Outcome oks (offset + chunk_len (length file) offset) (u16 (seq + 1))
                    _ bytes (omega arith)))
        ]
      ]

  -- Calls of `send_all` that all succeed come to the end of the file.
  send_frames-ends :
      (n offset seq : ℕ)
      → length file ≤ offset + 44 * n
      → (send_frames scheme file (replicate n true) offset seq).1 ≡ file_sent
  unfolding send_frames chunk_len
  send_frames-ends zero offset seq h =
      let test : ltb offset (length file) ≡ false = ground arith in rw test refl
  send_frames-ends (suc n) offset seq h = elim (Bool-cases (ltb offset (length file))) [
    | inr e ↦ rw e refl
    | inl e ↦ rw e (
        send_frames-ends n (offset + chunk_len (length file) offset) (u16 (seq + 1))
          (chunk_len-more file offset (44 * n) (omega (arith, ltb→lt offset (length file) e, h))))
  ]

module _ (scheme : Scheme) (file : List ℕ) (bytes : IsBytes file) where
  outcome :
      (oks : List Bool)
      → Outcome scheme file 0 start
          (send_frames scheme file oks 0 0)
          (receive_frames scheme (arrivals (send_frames scheme file oks 0 0).0) start)
  outcome oks = send_frames-Outcome scheme file oks 0 0 start bytes (omega arith)

  -- A file of bytes, sent and received under the same scheme over a socket that delivers what was
  -- sent, whichever calls of `send_all` fail: when the connection is closed behind the frames that
  -- were sent whole, the receiver has written the beginning of the file, 44 bytes for each of those
  -- frames or up to its end, and has rejected none.
  pub receive_frames-take :
      (oks : List Bool)
      → let sent = send_frames scheme file oks 0 0 in
        let t = receive_frames scheme (arrivals sent.0) start in
        (t.0.output ≡ take (44 * length sent.0) file)
        × (t.0.rejected ≡ 0)
        × (t.1 ≡ connection_closed)
  receive_frames-take oks = let o = outcome oks in (o.written, o.none_rejected, o.over)

  -- A file of bytes, sent and received under the same scheme over a socket that delivers what was
  -- sent, with `n` calls of `send_all` that succeed, where `n` frames of 44 bytes are enough for the
  -- file: the sender comes to its end, and the receiver has written exactly the file.
  pub receive_frames-send_frames :
      (n : ℕ)
      → length file ≤ 44 * n
      → let sent = send_frames scheme file (replicate n true) 0 0 in
        (sent.1 ≡ file_sent) × ((receive_frames scheme (arrivals sent.0) start).0.output ≡ file)
  receive_frames-send_frames n h =
      let o = outcome (replicate n true) in
      let ended = send_frames-ends scheme file n 0 0 (omega arith) in
      let whole : length file ≤ 44 * length (send_frames scheme file (replicate n true) 0 0).0 =
        omega (arith, (rw ended at o.whole)) in
      (ended, o.written ∙ take-all _ file whole)
