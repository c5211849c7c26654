-- ===== src/Lab2/StopAndWait/Tests.antt =====
-- A run of a Stop-and-Wait transfer.
use network_lab.Prelude.{ℕ, ◌+◌, ◌≡◌, ◌⊎◌, refl, inl, true, false, List, [], ◌∷◌, take, arith}
use network_lab.Lab1.Checksum.{checksum16_compute, ones_comp_sum, sum_loop, carry_loop, word_of}
use network_lab.Lab1.Scheme.{compute_fcs}
use network_lab.Lab1.Frame.{to_bytes, of_bytes, covered}
use network_lab.Lab1.Frame.Seal.{fcs_matches, fcs_of, seal}
use network_lab.Lab2.Arq.{eot_frame, data_frame, chunk_len, make_frame, reply_frame, frame_ack}
use network_lab.Lab2.Arq.Calls.{sends}
use network_lab.Lab2.Channel.{ChannelStats, Draws, channel_send, wire, quiet, sent}
use network_lab.Lab2.StopAndWait.Sender
use network_lab.Lab2.StopAndWait.Sender.{got_frame}
use network_lab.Lab2.StopAndWait.Receiver
use network_lab.Lab2.StopAndWait.System.{
  System, start, sends_new, waits, receiver, reads, Reach, here, next,
}
use network_lab.Lab2.StopAndWait.Safety.{written-take, written-file}
use network_lab.Lab2.StopAndWait.Lossless.{Reach-finished}

abbrev file : List ℕ
file = 7 ∷ []

abbrev clean : Draws
clean = record { loses = false; malloc_fails = false; corrupts = false; rand = 0 }

abbrev no_stats : ChannelStats
no_stats = record { frames_sent = 0; frames_lost = 0; frames_corrupted = 0 }

abbrev b0 : List ℕ
b0 = to_bytes (data_frame file 0 0)

abbrev ack0 : List ℕ
ack0 = to_bytes (reply_frame frame_ack 0)

abbrev b1 : List ℕ
b1 = to_bytes (eot_frame 1)

-- The frame is sent, received and acknowledged.
abbrev s1 : System
s1 = record start { tx = (Sender.main_round file start.tx).0; forward = b0 ∷ [] }

s1_reached : Reach file start s1
unfolding Sender.main_round Sender.send_new sends channel_send wire
s1_reached = next here (sends_new refl (sent clean no_stats quiet))

abbrev s2 : System
s2 = record s1 { rx = (Receiver.on_frame s1.rx b0).0; forward = []; backward = ack0 ∷ [] }

s2_reached : Reach file start s2
unfolding Receiver.on_frame Receiver.deliver Receiver.send_ack of_bytes to_bytes covered fcs_matches
    fcs_of compute_fcs make_frame seal data_frame reply_frame chunk_len checksum16_compute
    ones_comp_sum sum_loop carry_loop word_of channel_send wire
s2_reached = next s1_reached (receiver refl refl (sent clean no_stats quiet))

abbrev s3 : System
s3 = record s2 { tx = (Sender.sw_wait_for_ack file s2.tx (got_frame ack0)).0; backward = [] }

s3_reached : Reach file start s3
unfolding Sender.main_round Sender.send_new Sender.sw_wait_for_ack Sender.wait_for_ack
    Sender.on_reply Sender.acknowledges Sender.acked Sender.advance of_bytes to_bytes covered
    fcs_matches fcs_of compute_fcs make_frame seal reply_frame checksum16_compute ones_comp_sum
    sum_loop carry_loop word_of sends
s3_reached = next s2_reached (waits (inl refl) (reads ack0 []) quiet)

-- The end of the transmission is sent and received.
abbrev s4 : System
s4 = record s3 { tx = (Sender.main_round file s3.tx).0; forward = b1 ∷ [] }

s4_reached : Reach file start s4
unfolding Sender.main_round Sender.send_new Sender.sw_wait_for_ack Sender.on_reply
    Sender.acknowledges Sender.acked Sender.advance of_bytes to_bytes covered fcs_matches fcs_of
    compute_fcs make_frame seal reply_frame chunk_len checksum16_compute ones_comp_sum sum_loop
    carry_loop word_of sends channel_send wire
s4_reached = next s3_reached (sends_new refl (sent clean no_stats quiet))

abbrev pub s5 : System
s5 = record s4 {
  rx = (Receiver.on_frame s4.rx b1).0;
  forward = [];
  backward = to_bytes (reply_frame frame_ack 1) ∷ [];
}

pub s5_reached : Reach file start s5
unfolding Receiver.on_frame Receiver.deliver Receiver.send_ack of_bytes to_bytes covered fcs_matches
    fcs_of compute_fcs make_frame seal data_frame eot_frame reply_frame chunk_len checksum16_compute
    ones_comp_sum sum_loop carry_loop word_of channel_send wire
s5_reached = next s4_reached (receiver refl refl (sent clean no_stats quiet))

pub has_stopped : s5.rx.stopped ≡ true
unfolding Receiver.on_frame Receiver.deliver Receiver.send_ack of_bytes to_bytes covered fcs_matches
    fcs_of compute_fcs make_frame seal data_frame eot_frame reply_frame chunk_len checksum16_compute
    ones_comp_sum sum_loop carry_loop word_of
has_stopped = refl

written-take_example :
    (s2.rx.output ≡ take s2.tx.offset file) ⊎ (s2.rx.output ≡ take (s2.tx.offset + 44) file)
written-take_example = written-take file (omega arith, tt) s2_reached

written-file_example : s5.rx.output ≡ 7 ∷ []
written-file_example = written-file file (omega arith, tt) s5_reached (inl has_stopped)

Reach-finished_example :
    (s : System) × Reach file start s × (s.tx.phase ≡ Sender.finished) × (s.rx.output ≡ file)
Reach-finished_example = Reach-finished file (omega arith, tt)
