-- ===== src/Lab2/SelectiveRepeat/Tests.antt =====
-- Runs of a Selective Repeat transfer.
use network_lab.Prelude.{
  ℕ, zero, suc, ◌*◌, ◌%◌, ◌<◌, ◌≡◌, refl, inl, true, false, List, [], ◌∷◌, ◌++◌, take, replicate,
  arith,
}
use network_lab.Lab1.Checksum.{checksum16_compute, ones_comp_sum, sum_loop, carry_loop, word_of}
use network_lab.Lab1.Scheme.{compute_fcs}
use network_lab.Lab1.Frame.{to_bytes, of_bytes, covered}
use network_lab.Lab1.Frame.Seal.{fcs_matches, fcs_of, seal}
use network_lab.Lab2.Arq.{timeout, eot_frame, data_frame, chunk_len, make_frame}
use network_lab.Lab2.Arq.Calls.{sends}
use network_lab.Lab2.Arq.Frames.{make_frame-IsSealed}
use network_lab.Lab2.Arq.Reports.{expires}
use network_lab.Lab2.Arq.Window.{sending}
use network_lab.Lab2.Channel.{ChannelStats, Draws, channel_send, wire, quiet, sent}
use network_lab.Lab2.Channel.Flight.{IsSealed}
use network_lab.Lab2.SelectiveRepeat.Sender
use network_lab.Lab2.SelectiveRepeat.Sender.{Sender}
use network_lab.Lab2.SelectiveRepeat.Receiver
use network_lab.Lab2.SelectiveRepeat.System.{System, start, sender, receiver, Reach, here, next}
use network_lab.Lab2.SelectiveRepeat.Safety.{delivered-take, delivered-file}
use network_lab.Lab2.SelectiveRepeat.Waits.{Past}
use network_lab.Lab2.SelectiveRepeat.Stuck.{AcksLost, no_progress}

abbrev file : List ℕ
file = 7 ∷ []

abbrev clean : Draws
clean = record { loses = false; malloc_fails = false; corrupts = false; rand = 0 }

abbrev losing : Draws
losing = record clean { loses = true }

abbrev no_stats : ChannelStats
no_stats = record { frames_sent = 0; frames_lost = 0; frames_corrupted = 0 }

abbrev clock : ℕ → ℕ
clock i = i

abbrev b0 : List ℕ
b0 = to_bytes (data_frame file 0 0)

abbrev b1 : List ℕ
b1 = to_bytes (eot_frame 1)

-- Both frames are sent, then both are received.
abbrev s1 : System
s1 = record (start 2) { tx = (Sender.round clock file (start 2).tx timeout).0; forward = b0 ∷ [] }

s1_reached : Reach 2 file (start 2) s1
unfolding Sender.round Sender.round_in Sender.main_round Sender.send_data Sender.send_eot
    Sender.send_new Sender.start sends channel_send wire chunk_len
s1_reached = next here (sender clock expires (sent clean no_stats quiet))

abbrev s2 : System
s2 = record s1 { tx = (Sender.round clock file s1.tx timeout).0; forward = b0 ∷ b1 ∷ [] }

s2_reached : Reach 2 file (start 2) s2
unfolding Sender.round Sender.round_in Sender.main_round Sender.send_data Sender.send_eot
    Sender.send_new Sender.start sends channel_send wire chunk_len
s2_reached = next s1_reached (sender clock expires (sent clean no_stats quiet))

abbrev s3 : System
s3 = record s2 {
  rx = (Receiver.on_frame 2 s2.rx b0).0;
  forward = b1 ∷ [];
  backward = (Receiver.on_frame 2 s2.rx b0).1;
}

s3_reached : Reach 2 file (start 2) s3
unfolding Receiver.on_frame Receiver.on_data Receiver.take_in Receiver.in_window
    Receiver.buffer_frame Receiver.deliver_marked Receiver.deliver Receiver.acknowledge
    Receiver.nak_unless_sent of_bytes to_bytes covered fcs_matches fcs_of compute_fcs make_frame
    seal data_frame eot_frame chunk_len checksum16_compute ones_comp_sum sum_loop carry_loop word_of
    channel_send wire
s3_reached = next s2_reached (receiver refl refl (sent clean no_stats quiet))

abbrev s4 : System
s4 = record s3 {
  rx = (Receiver.on_frame 2 s3.rx b1).0;
  forward = [];
  backward = s3.backward ++ (Receiver.on_frame 2 s3.rx b1).1;
}

s4_reached : Reach 2 file (start 2) s4
unfolding Receiver.on_frame Receiver.on_data Receiver.take_in Receiver.in_window
    Receiver.buffer_frame Receiver.deliver_marked Receiver.deliver Receiver.acknowledge
    Receiver.nak_unless_sent of_bytes to_bytes covered fcs_matches fcs_of compute_fcs make_frame
    seal data_frame eot_frame chunk_len checksum16_compute ones_comp_sum sum_loop carry_loop word_of
    channel_send wire
s4_reached = next s3_reached (receiver refl refl (sent clean no_stats quiet))

has_stopped : s4.rx.stopped ≡ true
unfolding Receiver.on_frame Receiver.on_data Receiver.take_in Receiver.in_window
    Receiver.buffer_frame Receiver.deliver_marked Receiver.deliver Receiver.acknowledge
    Receiver.nak_unless_sent of_bytes to_bytes covered fcs_matches fcs_of compute_fcs make_frame
    seal data_frame eot_frame chunk_len checksum16_compute ones_comp_sum sum_loop carry_loop word_of
has_stopped = refl

delivered-take_example : s4.rx.output ≡ take (44 * s4.rx.rn) file
delivered-take_example =
    delivered-take 2 (omega arith) file (omega arith, tt) (omega arith) (omega arith) s4_reached

delivered-file_example : s4.rx.output ≡ 7 ∷ []
delivered-file_example =
    delivered-file 2 (omega arith) file (omega arith, tt) (omega arith) (omega arith) s4_reached
      (inl has_stopped)

-- A window of one frame, which arrives, and its acknowledgement lost.
abbrev long_file : List ℕ
long_file = replicate 45 7

abbrev c0 : List ℕ
c0 = to_bytes (data_frame long_file 0 0)

abbrev lost : System
lost = record (start 1) {
  tx = (Sender.round clock long_file (start 1).tx timeout).0;
  rx = (Receiver.on_frame 1 (start 1).rx c0).0;
}

lost_slot :
    (i : ℕ)
    → i < 1
    → Past 1 (lost.tx.frame_store (i % lost.tx.sw))
      × IsSealed (lost.tx.frame_store (i % lost.tx.sw))
unfolding Sender.round Sender.round_in Sender.main_round Sender.send_data Sender.send_eot
    Sender.send_new Sender.start sends channel_send wire chunk_len data_frame make_frame seal
lost_slot zero h = (
  omega arith,
  make_frame-IsSealed 0 0 (replicate 44 7) (omega arith) (omega arith) (omega arith),
)
lost_slot (suc i) h = absurd (omega arith)

lost-AcksLost : AcksLost long_file lost
unfolding Sender.round Sender.round_in Sender.main_round Sender.send_data Sender.send_eot
    Sender.send_new Sender.start sends channel_send wire chunk_len Receiver.on_frame
    Receiver.on_data Receiver.take_in Receiver.in_window Receiver.buffer_frame
    Receiver.deliver_marked Receiver.deliver Receiver.acknowledge Receiver.nak_unless_sent of_bytes
    to_bytes covered fcs_matches fcs_of compute_fcs make_frame seal data_frame eot_frame
    checksum16_compute ones_comp_sum sum_loop carry_loop word_of
lost-AcksLost = record {
  tx_waits = record {
    in_main_loop = refl;
    data_left = omega arith;
    window_full = omega arith;
    upper = refl;
    lower = omega arith;
    stored = λ i lo hi. lost_slot i hi;
  };
  fits = omega arith;
  runs = refl;
  idle = refl;
  forward_past = tt;
  backward_stale = tt;
}

-- A timeout sends the frame again.
abbrev lost2 : System
lost2 = record lost {
  tx = (Sender.round (λ i. 30000000) long_file lost.tx timeout).0;
  forward = c0 ∷ [];
}

lost2_reached : Reach 1 long_file lost lost2
unfolding Sender.round Sender.round_in Sender.main_round Sender.send_data Sender.send_eot
    Sender.send_new Sender.start sends channel_send wire chunk_len Sender.wait Sender.sr_wait_step
    Sender.resend_earliest Sender.resend Sender.earliest data_frame make_frame seal
lost2_reached = next here (sender (λ i. 30000000) expires (sent clean no_stats quiet))

no_progress_example :
    (lost2.rx.rn ≡ lost.rx.rn)
    × (lost2.rx.output ≡ lost.rx.output)
    × (lost2.rx.stopped ≡ false)
    × (lost2.tx.phase ≡ sending)
    × (lost2.tx.sf ≡ lost.tx.sf)
no_progress_example =
    no_progress {window_size = 1} {file = long_file} {s = lost} {t = lost2} (omega arith)
      lost-AcksLost lost2_reached
