-- ===== src/Lab2/GoBackN/NextFrame.antt =====
-- lab2: a data frame of a Go-Back-N transfer arrives. Its acknowledgement is read if the sender waits for
-- it, and lost otherwise.
use network_lab.Prelude.{
  ℕ, ◌+◌, ◌*◌, ◌^◌, ◌≤◌, ◌<◌, ◌≡◌, refl, sym, ap, ◌∙◌, inl, inr, false, List, [], ◌∷◌, length, leb,
  ◌==◌, drop, length-take, length-drop, lt→ltb, u16, arith,
}
use mathlib.Core.Path.{subst}
use native.Mathlib.Decide.{dec_lt}
use network_lab.Lab1.Checksum.Sum.{IsBytes}
use network_lab.Lab1.Frame.{Frame, to_bytes}
use network_lab.Lab2.Arq.{frame_data, data_frame, chunk_len, make_frame, Select, timeout}
use network_lab.Lab2.Arq.Frames.{
  make_frame-IsSealed, make_frame-fields, data_frame-chunk, chunk, length-chunk, chunk-IsBytes,
}
use network_lab.Lab2.Arq.Progress.{Progress, Progress-suc}
use network_lab.Lab2.Channel.Flight.{IsSealed}
use network_lab.Lab2.GoBackN.Sender.{Sender, sending, wait, send_new, send_data, main_round, round}
use network_lab.Lab2.GoBackN.Receiver.{Receiver, deliver}
use network_lab.Lab2.GoBackN.System as System
use network_lab.Lab2.GoBackN.System.{sends, Step, sender, expires, Reach, here, next}
use network_lab.Lab2.GoBackN.Window.{Same}
use network_lab.Lab2.GoBackN.Exchange.{
  still, taken, ack, unanswered, answered, acked, acked-Same, acked-sf, reply-Step,
}
use network_lab.Lab2.GoBackN.InStep.{InStep, sends-send_new, sn-small, sending_round, full_round}

module _ (file : List ℕ) (bytes : IsBytes file) (small : length file ≤ 44 * 65534) (sw : ℕ)
    (pos : 0 < sw) where
  module _ (tx : Sender) (rx : Receiver) (v : InStep file sw tx rx)
      (more : tx.offset < length file) where
    f : Frame
    f = data_frame file tx.offset tx.sn

    at : tx.offset ≡ 44 * tx.sn
    at = go v.far
      where
        go : Progress file 0 sending tx.sn tx.offset → tx.offset ≡ 44 * tx.sn
        go (inl (off, below)) = off
        go (inr (off, all, near)) = absurd (omega arith)

    f-chunk : f ≡ make_frame frame_data tx.sn (chunk file tx.sn)
    unfolding f
    f-chunk = ap (λ o. data_frame file o tx.sn) at ∙ data_frame-chunk file tx.sn tx.sn

    f_lem :
        IsSealed f
        × (f.header.frame_type ≡ frame_data)
        × (f.header.frame_seq ≡ tx.sn)
        × ((f.header.frame_len == 0) ≡ false)
    f_lem =
        let short = length-chunk file tx.sn in
        let some_bytes : 0 < length (chunk file tx.sn) =
          omega
            (arith, at, length-take 44 (drop (44 * tx.sn) file), length-drop (44 * tx.sn) file) in
        let (t, n, l) =
          make_frame-fields frame_data tx.sn (chunk file tx.sn) short
            (omega (arith, sn-small file sw tx rx small v)) in
        rw f-chunk (
          make_frame-IsSealed frame_data tx.sn (chunk file tx.sn) (omega arith) short
              (chunk-IsBytes file tx.sn bytes),
          t,
          n,
          ground (arith, l, some_bytes),
        )

    data_round : round file tx timeout ≡ send_data file tx
    data_round =
        let free : leb (tx.sf + tx.sw) tx.sn ≡ false = ground (arith, v.room more, v.size) in
        sending_round file tx timeout v.now ∙ unfold main_round in rw (lt→ltb _ _ more, free) refl

    tx' : Sender
    tx' = (send_data file tx).0

    sends-send_data : sends (send_data file tx).1 ≡ to_bytes f ∷ []
    unfolding send_data f
    sends-send_data = sends-send_new tx f

    tx'_fields :
        (tx'.phase ≡ sending)
        × (tx'.sn ≡ tx.sn + 1)
        × (tx'.sf ≡ tx.sf)
        × (tx'.sw ≡ sw)
        × (tx.offset < tx'.offset)
        × Progress file 0 sending tx'.sn tx'.offset
    unfolding tx' send_data send_new
    tx'_fields =
        let fits = sn-small file sw tx rx small v in
        let e : u16 (tx.sn + 1) ≡ tx.sn + 1 = omega (arith, fits) in
        let longer : tx.offset < tx.offset + chunk_len file tx.offset =
          unfold chunk_len in ground arith in
        (
          v.now,
          e,
          refl,
          v.size,
          longer,
          Progress-suc file 0 tx.sn tx.offset (u16 (tx.sn + 1)) at (omega (arith, at)) e,
        )

    rx' : Receiver
    rx' = taken rx f

    rx'_fields : (rx'.rn ≡ tx.sn + 1) × (rx'.stopped ≡ false)
    unfolding rx' taken deliver
    rx'_fields = (omega (arith, v.same, sn-small file sw tx rx small v), f_lem.3)

    abbrev pub Further : System.System → Type 0
    Further s =
        (t : Sender) × (u : Receiver) × Reach file s (still t u)
        × InStep file sw t u
        × (tx.offset < t.offset)

    turn : round file tx timeout ≡ (tx', (send_data file tx).1)
    unfolding tx'
    turn = data_round

    seq : f.header.frame_seq ≡ rx.rn
    seq = f_lem.2 ∙ sym v.same

    -- The window has room behind the frame, or no data is left: the acknowledgement is lost.
    next_unread :
        {s : System.System}
        → (tx'.offset < length file → tx'.sn < tx'.sf + sw)
        → Reach file s (still tx rx)
        → Further s
    next_unread room r =
        let (now, sn, sf, size, longer, far) = tx'_fields in
        (
          tx',
          rx',
          unfold rx' in
              unanswered file tx tx' rx f turn sends-send_data f_lem.0 f_lem.1 seq v.going r,
          record {
            now = now;
            same = rx'_fields.0 ∙ sym sn;
            far = far;
            size = size;
            room = room;
            behind = omega (arith, sn, sf, v.behind);
            going = rx'_fields.1;
          },
          longer,
        )

    -- The frame fills the window with data left: the sender reads the acknowledgement.
    next_read :
        {s : System.System}
        → tx'.offset < length file
        → tx'.sf + sw ≤ tx'.sn
        → Reach file s (still tx rx)
        → Further s
    next_read {s} left full r =
        let (now, sn, sf, size, longer, far) = tx'_fields in
        let sent : Reach file s (record (still tx' rx') { backward = ack rx ∷ [] }) =
          unfold rx' in
          answered file tx tx' rx f turn sends-send_data f_lem.0 f_lem.1 seq v.going r in
        (
          tx'',
          rx',
          next sent (reply-Step file tx' rx' a fits all outstanding waits),
          record {
            now = kept.phase_same ∙ now;
            same = rx'_fields.0 ∙ sym sn ∙ sym kept.sn_same;
            far =
                subst (λ n. Progress file 0 sending n tx''.offset) (sym kept.sn_same)
                  (subst (λ o. Progress file 0 sending tx'.sn o) (sym kept.offset_same) far);
            size = kept.sw_same ∙ size;
            room = λ more'. omega (arith, slid, kept.sn_same, all, pos);
            behind = omega (arith, slid, kept.sn_same, all);
            going = rx'_fields.1;
          },
          omega (arith, kept.offset_same, longer),
        )
      where
        a : ℕ
        a = u16 (rx.rn + 1)

        fits : a < 2 ^ 16
        fits = omega arith

        all : a ≡ tx'.sn
        all = omega (arith, tx'_fields.1, v.same, sn-small file sw tx rx small v)

        outstanding : tx'.sf < a
        outstanding = omega (arith, all, tx'_fields.1, tx'_fields.2, v.behind)

        waits : (sel : Select) → round file tx' sel ≡ wait tx' sel
        waits sel = full_round file tx' sel tx'_fields.0 left (omega (arith, full, tx'_fields.3))

        tx'' : Sender
        tx'' = acked file tx' rx' a fits all outstanding waits

        kept : Same tx' tx''
        kept = acked-Same file tx' rx' a fits all outstanding waits

        slid : tx''.sf ≡ a
        slid = acked-sf file tx' rx' a fits all outstanding waits

    -- One more frame of the file.
    pub next_frame : {s : System.System} → Reach file s (still tx rx) → Further s
    next_frame r = elim (dec_lt tx'.offset (length file)) [
      | no all ↦ next_unread (λ left. absurd (all left)) r
      | yes left ↦ elim (dec_lt tx'.sn (tx'.sf + sw)) [
        | yes room ↦ next_unread (λ _. room) r
        | no full ↦ next_read left (omega arith) r
      ]
    ]
