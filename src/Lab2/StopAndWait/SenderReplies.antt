-- ===== src/Lab2/StopAndWait/SenderReplies.antt =====
-- lab2/arq/sender.c, Stop-and-Wait: what the sender knows when it has read a reply.
use network_lab.Prelude.{
  ℕ, ◌+◌, ◌%◌, ◌<◌, ◌≡◌, refl, ap, ◌⊎◌, inl, inr, true, List, [], arith, Bool-cases, and_both,
  ==_iff,
}
use network_lab.Lab1.Checksum.Sum.{IsBytes}
use network_lab.Lab1.Frame.{of_bytes}
use network_lab.Lab1.Frame.Seal.{fcs_matches}
use network_lab.Lab2.Arq.{frame_ack, reply_frame}
use network_lab.Lab2.Arq.Calls.{sends}
use network_lab.Lab2.Arq.Frames.{make_frame-fields}
use network_lab.Lab2.Channel.Flight.{Flight, Flight-of_bytes}
use network_lab.Lab2.StopAndWait.Sender.{Sender, acknowledges, count_corrupted, on_reply}
use network_lab.Lab2.StopAndWait.Replies.{Ack}
use network_lab.Lab2.StopAndWait.SenderInv.{
  SenderInv, Keeps, Passes, Waits, Waits-HasBegun, Waits-IsGoing, acked-Passes,
}

module _ (file : List ℕ) (bytes : IsBytes file) (a : ℕ) where
  count_corrupted-Keeps :
      (s : Sender) (b : List ℕ)
      → SenderInv file a s
      → Waits s
      → Keeps file a (count_corrupted s b, [])
  unfolding count_corrupted sends
  count_corrupted-Keeps s b v w = elim (Bool-cases (fcs_matches b)) [
    | inl e ↦
        rw e
          (record { inv = v; begun = Waits-HasBegun s w; going = Waits-IsGoing s w; this_out = tt })
    | inr e ↦ rw e (record {
      inv = record { number = v.number; reached = v.reached; place = v.place };
      begun = Waits-HasBegun s w;
      going = Waits-IsGoing s w;
      this_out = tt;
    })
  ]

  Ack-seq : (p : ℕ) → p < 2 → (reply_frame frame_ack p).header.frame_seq ≡ p
  unfolding reply_frame
  Ack-seq p small = (make_frame-fields frame_ack p [] (omega arith) (omega arith)).1

  -- The number that is read in an acknowledgement of this frame or of the frame before.
  acknowledges-seq :
      (s : Sender) (p : ℕ) {b : List ℕ}
      → p < 2
      → Flight (Ack p) b
      → acknowledges s b ≡ true
      → p ≡ s.sn
  unfolding acknowledges
  acknowledges-seq s p {b} small fl h =
      let (ok, rest) = and_both (fcs_matches b) _ h in
      let (type, same) = and_both _ _ rest in
      omega (
        arith,
        (==_iff (of_bytes b).header.frame_seq s.sn).0 same,
        ap (λ f. f.header.frame_seq) (Flight-of_bytes (Ack p) fl ok),
        Ack-seq p small,
      )

  pub on_reply-Keeps :
      (s : Sender) {b : List ℕ}
      → SenderInv file a s
      → Waits s
      → Flight (Ack ((a + 1) % 2)) b
      → Keeps file a (on_reply file s b)
  unfolding on_reply
  on_reply-Keeps s {b} v w fl = elim (Bool-cases (acknowledges s b)) [
    | inl e ↦
        absurd (
          let same = acknowledges-seq s ((a + 1) % 2) (omega arith) fl e in omega (arith, v.number))
    | inr e ↦ rw e (count_corrupted-Keeps s b v w)
  ]

  -- Any acknowledgement: this frame stays, or is done with.
  pub on_reply-cases :
      (s : Sender) (b : List ℕ)
      → SenderInv file a s
      → Waits s
      → Keeps file a (on_reply file s b) ⊎ Passes file a (on_reply file s b)
  unfolding on_reply sends
  on_reply-cases s b v w = elim (Bool-cases (acknowledges s b)) [
    | inl e ↦ inr (
        rw e (
          acked-Passes file bytes a (record s { stats = _ }) _
            (record { number = v.number; reached = v.reached; place = v.place }) w refl))
    | inr e ↦ inl (rw e (count_corrupted-Keeps s b v w))
  ]
