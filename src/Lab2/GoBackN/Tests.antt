-- ===== src/Lab2/GoBackN/Tests.antt =====
-- Runs of a Go-Back-N transfer of small files.
use network_lab.Prelude.{
  ℕ, zero, suc, ◌*◌, ◌%◌, ◌<◌, ◌≡◌, ◌≢◌, refl, inl, true, false, List, [], ◌∷◌, ◌++◌, take,
  replicate, arith,
}
use network_lab.Lab1.Checksum.{checksum16_compute, ones_comp_sum, sum_loop, carry_loop, word_of}
use network_lab.Lab1.Scheme.{compute_fcs}
use network_lab.Lab1.Frame.{to_bytes, of_bytes, covered}
use network_lab.Lab1.Frame.Seal.{fcs_matches, fcs_of, seal}
use network_lab.Lab2.Arq.{timeout, eot_frame, data_frame, chunk_len, make_frame}
use network_lab.Lab2.Arq.Frames.{make_frame-IsSealed}
use network_lab.Lab2.Channel.{ChannelStats, Draws, channel_send, wire, quiet, sent}
use network_lab.Lab2.Channel.Flight.{IsSealed}
use network_lab.Lab2.GoBackN.Sender
use network_lab.Lab2.GoBackN.Sender.{Sender, finished}
use network_lab.Lab2.GoBackN.Receiver
use network_lab.Lab2.GoBackN.System.{
  System, start, sends, expires, sender, receiver, Reach, here, next,
}
use network_lab.Lab2.GoBackN.Safety.{output-take, output-file}
use network_lab.Lab2.GoBackN.Slots.{send_eot-slot}
use network_lab.Lab2.GoBackN.Lossless.{Reach-returned}
use network_lab.Lab2.GoBackN.Bounds.{overlay, round-overlay}
use network_lab.Lab2.GoBackN.Overwrite.{IsFull, never_ends}

abbrev file : List ℕ
file = 7 ∷ []

abbrev clean : Draws
clean = record { loses = false; malloc_fails = false; corrupts = false; rand = 0 }

abbrev losing : Draws
losing = record clean { loses = true }

abbrev no_stats : ChannelStats
no_stats = record { frames_sent = 0; frames_lost = 0; frames_corrupted = 0 }

-- The sender's next round with no news, over a channel that loses nothing or everything.
abbrev tx_round : System → System
tx_round s = record s { tx = (Sender.round file s.tx timeout).0 }

-- A whole transfer of one data frame.
abbrev b0 : List ℕ
b0 = to_bytes (data_frame file 0 0)

abbrev b1 : List ℕ
b1 = to_bytes (eot_frame 1)

abbrev s1 : System
s1 = record (start 2) { tx = (Sender.round file (start 2).tx timeout).0; forward = b0 ∷ [] }

s1_reached : Reach file (start 2) s1
unfolding Sender.round Sender.round_in Sender.main_round Sender.send_data Sender.send_new
    Sender.start sends channel_send wire
s1_reached = next here (sender expires (sent clean no_stats quiet))

abbrev s2 : System
s2 = record s1 {
  rx = (Receiver.on_frame s1.rx b0).0;
  forward = [];
  backward = (Receiver.on_frame s1.rx b0).1;
}

s2_reached : Reach file (start 2) s2
unfolding Receiver.on_frame channel_send wire
s2_reached = next s1_reached (receiver refl refl (sent clean no_stats quiet))

abbrev s3 : System
s3 = record s2 { tx = (Sender.round file s2.tx timeout).0; forward = b1 ∷ [] }

s3_reached : Reach file (start 2) s3
unfolding Sender.round Sender.round_in Sender.main_round Sender.send_data Sender.send_eot
    Sender.send_new Sender.start sends channel_send wire chunk_len
s3_reached = next s2_reached (sender expires (sent clean no_stats quiet))

abbrev s4 : System
s4 = record s3 {
  rx = (Receiver.on_frame s3.rx b1).0;
  forward = [];
  backward = s3.backward ++ (Receiver.on_frame s3.rx b1).1;
}

runs_on : s3.rx.stopped ≡ false
unfolding Receiver.on_frame Receiver.accept Receiver.deliver Receiver.in_order of_bytes to_bytes
    covered fcs_matches fcs_of compute_fcs make_frame seal data_frame chunk_len checksum16_compute
    ones_comp_sum sum_loop carry_loop word_of
runs_on = refl

s4_reached : Reach file (start 2) s4
unfolding Receiver.on_frame channel_send wire
s4_reached = next s3_reached (receiver runs_on refl (sent clean no_stats quiet))

has_stopped : s4.rx.stopped ≡ true
unfolding Receiver.on_frame Receiver.accept Receiver.deliver Receiver.in_order of_bytes to_bytes
    covered fcs_matches fcs_of compute_fcs make_frame seal data_frame eot_frame chunk_len
    checksum16_compute ones_comp_sum sum_loop carry_loop word_of
has_stopped = refl

output-take_example : s4.rx.output ≡ take (44 * s4.rx.rn) file
output-take_example =
    output-take file (omega arith, tt) (omega arith) 2 (omega arith) (omega arith) s4_reached

output-file_example : s4.rx.output ≡ 7 ∷ []
output-file_example =
    output-file file (omega arith, tt) (omega arith) 2 (omega arith) (omega arith) s4_reached
      (inl has_stopped)

-- A window of one frame, and the only data frame lost.
abbrev lost : System
lost = record (start 1) { tx = (Sender.round file (start 1).tx timeout).0 }

lost_reached : Reach file (start 1) lost
unfolding Sender.round Sender.round_in Sender.main_round Sender.send_data Sender.send_new
    Sender.start sends channel_send wire
lost_reached = next here (sender expires (sent losing no_stats quiet))

lost_slot :
    (i : ℕ)
    → i < 1
    → ((lost.tx.frame_store (i % lost.tx.sw)).header.frame_seq ≡ i)
      × IsSealed (lost.tx.frame_store (i % lost.tx.sw))
unfolding Sender.round Sender.round_in Sender.main_round Sender.send_data Sender.send_new
    Sender.start data_frame chunk_len make_frame seal
lost_slot zero h =
    (refl, make_frame-IsSealed 0 0 file (omega arith) (omega arith) (omega arith, tt))
lost_slot (suc i) h = absurd (omega arith)

lost-IsFull : IsFull file lost
unfolding Sender.round Sender.round_in Sender.main_round Sender.send_data Sender.send_new
    Sender.start data_frame chunk_len make_frame seal
lost-IsFull = record {
  sends_eot = refl;
  all_sent = omega arith;
  window_full = refl;
  window_pos = omega arith;
  no_wrap = omega arith;
  lacks = refl;
  runs = refl;
  quiet_forward = refl;
  quiet_backward = refl;
  stored = λ i lo hi. lost_slot i hi;
}

send_eot-slot_example :
    (Sender.send_eot lost.tx).0.frame_store (lost.tx.sf % lost.tx.sw) ≡ eot_frame lost.tx.sn
send_eot-slot_example = send_eot-slot lost.tx lost-IsFull.window_full

-- The end-of-transmission frame is lost too.
abbrev lost2 : System
lost2 = record lost { tx = (Sender.round file lost.tx timeout).0 }

-- A timeout with the only frame of the window lost: it is read again from the array.
round-overlay_example : Sender.round file (overlay (λ _. eot_frame 9) lost2.tx) timeout ≡ (
  overlay (λ _. eot_frame 9) (Sender.round file lost2.tx timeout).0,
  (Sender.round file lost2.tx timeout).1,
)
unfolding Sender.round Sender.round_in Sender.main_round Sender.send_eot Sender.send_data
    Sender.send_new Sender.start sends channel_send wire chunk_len
round-overlay_example =
    round-overlay file 1 (omega arith) (omega arith)
      (next lost_reached (sender expires (sent losing no_stats quiet))) (λ _. eot_frame 9) timeout

never_ends_example :
    (lost2.rx.rn ≡ 0)
    × (lost2.rx.output ≡ [])
    × (lost2.rx.stopped ≡ false)
    × (lost2.tx.phase ≢ finished)
unfolding Sender.round Sender.round_in Sender.main_round Sender.send_eot Sender.send_data
    Sender.send_new Sender.start sends channel_send wire chunk_len
never_ends_example =
    never_ends {file = file} {s = lost} {t = lost2} lost-IsFull
      (next here (sender expires (sent losing no_stats quiet)))

-- Two frames, sent with a window of three.
Reach-returned_example :
    (s : System) × Reach (replicate 45 7) (start 2) s
    × (s.rx.stopped ≡ true)
    × (s.tx.phase ≡ finished)
    × (s.rx.output ≡ replicate 45 7)
Reach-returned_example =
    Reach-returned (replicate 45 7) 2 (omega arith) (omega arith) (omega arith) (omega arith)
