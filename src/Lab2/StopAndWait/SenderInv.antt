-- ===== src/Lab2/StopAndWait/SenderInv.antt =====
-- lab2/arq/sender.c, Stop-and-Wait: what the sender knows while it sends frame `a` of the file.
use network_lab.Prelude.{
  ℕ, ◌+◌, ◌*◌, ◌%◌, ◌≤◌, ◌<◌, ◌≡◌, refl, sym, ap, ap₂, ◌∙◌, ◌⊎◌, inl, inr, true, false, List, [],
  ltb, length, arith, All,
}
use mathlib.Core.Path.{subst}
use network_lab.Lab1.Checksum.Sum.{IsBytes}
use network_lab.Lab1.Frame.{Frame, to_bytes}
use network_lab.Lab2.Arq.{Call, frame_data, data_frame, eot_frame, chunk_len}
use network_lab.Lab2.Arq.Calls.{sends}
use network_lab.Lab2.Arq.Frames.{
  chunk, data_frame-chunk, eot_frame-chunk, make_frame-IsSealed, length-chunk, chunk-IsBytes,
}
use network_lab.Lab2.Channel.Flight.{IsSealed, Outgoing}
use network_lab.Lab2.StopAndWait.Sender.{
  Sender, Phase, sending, waiting, ending, finished, gave_up, main_round, send_new, advance, acked,
  retransmit,
}
use network_lab.Lab2.StopAndWait.Replies.{ThisFrame}

-- Where the sender is in the file, phase by phase, and the frame that it keeps for a retransmission.
abbrev pub Place : List ℕ → ℕ → Phase → ℕ → Frame → Type 0
Place file a sending offset f =
    ((offset ≡ 44 * a) × (44 * a < length file))
    ⊎ ((offset ≡ length file) × (length file ≤ 44 * a) × (44 * a < length file + 44))
Place file a waiting offset f = (offset ≡ 44 * a) × (44 * a < length file) × ThisFrame file a f
Place file a ending offset f =
    (length file ≤ 44 * a) × (44 * a < length file + 44) × ThisFrame file a f
Place file a finished offset f = length file ≤ 44 * a
Place file a gave_up offset f = Unit {0}

-- This frame has been sent.
abbrev pub HasBegun : Phase → Type 0
HasBegun sending = ⊥
HasBegun waiting = Unit {0}
HasBegun ending = Unit {0}
HasBegun finished = Unit {0}
HasBegun gave_up = Unit {0}

abbrev pub IsGoing : Phase → Type 0
IsGoing sending = Unit {0}
IsGoing waiting = Unit {0}
IsGoing ending = Unit {0}
IsGoing finished = ⊥
IsGoing gave_up = Unit {0}

-- The offset is that of frame `a`, or the end of the file.
abbrev pub Reached : List ℕ → ℕ → ℕ → Type 0
Reached file a offset = (offset ≡ 44 * a) ⊎ ((offset ≡ length file) × (length file ≤ 44 * a))

pub record SenderInv (file : List ℕ) (a : ℕ) (s : Sender) : Type 0 where
  pub number : s.sn ≡ a % 2
  pub reached : Reached file a s.offset
  pub place : Place file a s.phase s.offset s.frame

-- The sender still has frame `a` to send, or has given up.
pub record Keeps (file : List ℕ) (a : ℕ) (t : Sender × List Call) : Type 0 where
  pub inv : SenderInv file a t.0
  pub begun : HasBegun t.0.phase
  pub going : IsGoing t.0.phase
  pub this_out : All (Outgoing (ThisFrame file a)) (sends t.1)

-- The sender has left frame `a` behind: the next one is `a + 1`, or there is none.
pub record Passes (file : List ℕ) (a : ℕ) (t : Sender × List Call) : Type 0 where
  pub inv :
      ((44 * a < length file) × SenderInv file (a + 1) t.0 × (t.0.phase ≡ sending))
      ⊎ ((length file ≤ 44 * a) × SenderInv file a t.0 × (t.0.phase ≡ finished))
  pub none_out : sends t.1 ≡ []

abbrev pub Waits : Sender → Type 0
Waits s = (s.phase ≡ waiting) ⊎ (s.phase ≡ ending)

pub Waits-IsGoing : (s : Sender) → Waits s → IsGoing s.phase
Waits-IsGoing s (inl e) = rw e tt
Waits-IsGoing s (inr e) = rw e tt

pub Waits-HasBegun : (s : Sender) → Waits s → HasBegun s.phase
Waits-HasBegun s (inl e) = rw e tt
Waits-HasBegun s (inr e) = rw e tt

Waits-ThisFrame :
    (file : List ℕ) (a : ℕ) (s : Sender) → SenderInv file a s → Waits s → ThisFrame file a s.frame
Waits-ThisFrame file a s v (inl e) = (rw e at v.place).2
Waits-ThisFrame file a s v (inr e) = (rw e at v.place).2

module _ (file : List ℕ) (bytes : IsBytes file) (a : ℕ) where
  this_outgoing : {f : Frame} → ThisFrame file a f → Outgoing (ThisFrame file a) (to_bytes f)
  this_outgoing {f} e = (
    f,
    e,
    subst IsSealed (sym e) (
        make_frame-IsSealed frame_data (a % 2) (chunk file a) (omega arith) (length-chunk file a)
          (chunk-IsBytes file a bytes)),
    refl,
  )

  pub main_round-Keeps :
      (s : Sender) → SenderInv file a s → s.phase ≡ sending → Keeps file a (main_round file s)
  unfolding main_round send_new sends
  main_round-Keeps s v e = elim (rw e at v.place) [
    | inl (at, more) ↦
        let test : ltb s.offset (length file) ≡ true = ground (arith, at, more) in
        let this : ThisFrame file a (data_frame file s.offset s.sn) =
          ap₂ (data_frame file) at v.number ∙ data_frame-chunk file a (a % 2) in
        rw test (record {
          inv = record { number = v.number; reached = v.reached; place = (at, more, this) };
          begun = tt;
          going = tt;
          this_out = (this_outgoing this, tt);
        })
    | inr (at, no_more, near) ↦
        let test : ltb s.offset (length file) ≡ false = ground (arith, at) in
        let this : ThisFrame file a (eot_frame s.sn) =
          ap eot_frame v.number ∙ eot_frame-chunk file a (a % 2) no_more in
        rw test (record {
          inv = record { number = v.number; reached = v.reached; place = (no_more, near, this) };
          begun = tt;
          going = tt;
          this_out = (this_outgoing this, tt);
        })
  ]

  pub retransmit-Keeps : (s : Sender) → SenderInv file a s → Waits s → Keeps file a (retransmit s)
  unfolding retransmit sends
  retransmit-Keeps s v w = record {
    inv = record { number = v.number; reached = v.reached; place = v.place };
    begun = Waits-HasBegun s w;
    going = Waits-IsGoing s w;
    this_out = (this_outgoing (Waits-ThisFrame file a s v w), tt);
  }

  Place-next :
      (offset : ℕ) (f : Frame)
      → offset ≡ 44 * a
      → 44 * a < length file
      → Place file (a + 1) sending (offset + chunk_len file offset) f
  unfolding chunk_len
  Place-next offset f at more = ground arith

  Reached-next :
      (offset : ℕ)
      → offset ≡ 44 * a
      → 44 * a < length file
      → Reached file (a + 1) (offset + chunk_len file offset)
  unfolding chunk_len
  Reached-next offset at more = ground arith

  -- The wait returns 0.
  pub acked-Passes :
      (s : Sender) (cs : List Call)
      → SenderInv file a s
      → Waits s
      → sends cs ≡ []
      → Passes file a (acked s.phase file s, cs)
  unfolding acked advance
  acked-Passes s cs v (inl e) none =
      let (at, more, this) = rw e at v.place in
      record {
        inv = inl (
          more,
          rw e (record {
            number = omega (arith, v.number);
            reached = Reached-next s.offset at more;
            place = Place-next (s.offset) s.frame at more;
          }),
          rw e refl,
        );
        none_out = none;
      }
  acked-Passes s cs v (inr e) none =
      let (no_more, near, this) = rw e at v.place in
      record {
        inv = inr (
          no_more,
          rw e (record { number = v.number; reached = v.reached; place = no_more }),
          rw e refl,
        );
        none_out = none;
      }
