-- ===== src/Lib.antt =====
-- A model of Network-Lab_3.1: error detection over a noisy link (lab1), the Stop-and-Wait,
-- Go-Back-N and Selective Repeat protocols over that link with their timers (lab2), and a slotted
-- CSMA channel (lab3).
--
-- The parts and how they interact
--   * lab1/error.c computes a 16-bit ones'-complement checksum and four CRCs; lab1/scheme.c picks one
--     of them; lab1/frame.h lays a frame out in 65 bytes; lab1/error_inject/bit_flip.c flips bits.
--   * lab2/channel.c hands a frame to the socket, loses it, or flips one bit of it with that module.
--     lab2/arq/sender.c and receiver.c send a file in frames that the checksum seals, over two such
--     channels, and answer with acknowledgements.
--   * lab3/channel.c runs stations in lock step: each slot it sends a tick to every station, reads
--     an action from each, resolves the medium, and keeps the metrics. It checks a delivered
--     frame with lab1's checksum.
--   * lab1/error_inject/eval_main.c, lab1/perf_analysis/perf_analyzer.c and lab2/eval/eval_main.c run
--     the parts of lab1 and lab2 many times and count. utils/utils.c has the sockets and files of all.
--
-- The modules
--   * Prelude: the names shared by all files, tests and lists over the native numbers, the C widths.
--     Bits: `&`, `|` and `^` as arithmetic.
--   * Lab1.Checksum (lab1/error.c: ones_comp_sum, checksum16_compute, checksum16_verify), Lab1.Crc
--     (crc_compute, crc_verify), Lab1.Scheme (lab1/scheme.c; Names also has scheme_name_str of
--     lab1/perf_analysis/perf_analyzer.c), Lab1.Inject (lab1/error_inject/bit_flip.c),
--     Lab1.Target (lab1/error_inject/targeted_inject.c), Lab1.Frame
--     (lab1/frame.h). The children Linear and Live are on the register of the CRC, Combined, Burst and
--     Spot on flips as patterns that are combined with a buffer. Words and Exchanged are on what the
--     flips of Lab1.Target do to the 16-bit words of a buffer. The children Sum, Laws, Flip, Bytes,
--     Seal, Detect and Sealed hold lemmas, and Seal also the two lines by which lab2 writes and checks
--     the frame check sequence.
--     Lab1.Experiment holds the four experiments of lab1/error_inject/eval_main.c, with Trials, Bursts
--     and Rows on one trial, a burst and the printed counters.
--     Lab1.Perf is perf_analyze_scheme of lab1/perf_analysis/perf_analyzer.c, Lab1.Programs what the
--     two programs of lab1 open, use and close (lab1/sender.c, lab1/receiver.c: main).
--     Lab1.Link holds the loops of lab1/sender.c and lab1/receiver.c; its children Trailer, Chunks and
--     Transfer the lemmas.
--   * Lab2.Channel (lab2/channel.c: channel_send), Lab2.Arq (lab2/arq/arq.h and the frames of
--     lab2/arq/sender.c and receiver.c; the children hold what the protocols share: the window, the
--     calls of the channel, the chunks of a file, the answers of select). Lab2.StopAndWait.Sender
--     (wait_for_ack, sw_wait_for_ack, sender_sw_mode), Lab2.GoBackN.Sender (gbn_wait_step, sender_gbn_mode),
--     Lab2.SelectiveRepeat.Sender (sr_wait_step, sender_sr_mode). The Receiver beside each of them is
--     receiver_sw_mode, receiver_gbn_mode or receiver_sr_mode, and the System is both and the two
--     channels as a step relation. SenderInv, SenderReplies, Round, ReceiverInv, Replies, Marks,
--     Alternating and Safety carry the safety proofs, Exchange, InStep, NextFrame, LastFrame and
--     Lossless the runs that come to their end, Slots the numbering of frame_store, Bounds the accesses
--     to it, Stuck, Waits and Overwrite the case of a full window.
--     Lab2.Run holds sender_run and receiver_run up to the protocol that they enter.
--   * Lab3.Medium (medium_from_txcount, channel_resolve_slot), Lab3.Station (the station table and
--     the loops of channel_serve that change it), Lab3.Serve (the main loop of channel_serve).
--     Progress, Ending, Throughput and Loop hold the proofs.
--   * Lab2.Timer (lab2/timer.c: the window timer and the timers of frames), with Expiry and Window.
--     Lab2.Eval holds the input file, the comparison and the trials of lab2/eval/eval_main.c, with Input
--     and Correct.
--   * Utils (utils/utils.c: send_all and recv_all), with Sending and Transfer; Utils.Sockets (tcp_listen,
--     tcp_accept, tcp_connect, close_conn) and Utils.Files (read_file). Utils.Calls has the table of
--     descriptors, streams and buffers that a row of calls changes.
--   The modules called Tests hold runs of the code and the theorems applied to them.
--
-- How the state corresponds
--   A C struct is a record with the same fields, an enum a data type, an array a list of its
--   elements. A function returns the new state; one that calls the channel or the timers returns
--   the row of those calls too (Lab2.Arq.Call). A loop around `select` is one round of the sender for
--   each answer of `select`, so a run is a sequence of rounds that the step relation orders freely.
--   `none` is a read outside an array, a return of -1, or a loop that has not ended within its
--   fuel; each definition says which. `uint16_t`, `uint32_t` and `uint64_t` wrap by `% 2 ^ w`.
--   What comes from outside is an argument: the answers of `select`, `rand()`, the comparisons of
--   random numbers with the probabilities, whether `malloc` fails, and what the sockets deliver.
--
-- Bounds and fuel
--   * The carry loop of the checksum has fuel 3: a `uint32_t` has no carry after two rounds, and
--     the third test ends the loop.
--   * The Go-Back-N results suppose window sizes from 1 to 8, for which the window fits in
--     frame_store[256], and a file of at most 65534 full frames of 44 bytes, so that the 16-bit
--     sequence numbers do not wrap. The code compares them as numbers and does not allow for a wrap.
--   * The Selective Repeat results suppose the same window size from 1 to 9 on both sides, half of
--     whose sequence numbers fit in the 256 slots, and a file of the same size. For 0 the code shifts
--     by -1, which has no meaning in C. The delivery loop has fuel 256: each turn clears one of 256
--     marks. The Stop-and-Wait results suppose nothing of the kind.
--   * generate_input_file has the size of the file as fuel: each turn of its loop writes at least one
--     byte. The loop of perf_analyze_scheme goes through the readings of the clock that are given.
--   * The main loop of channel_serve takes its fuel from max_slots, which is an `int`.
--
-- Not modelled
--   The arguments of the programs, what they print, the threads of lab2/eval/eval_main.c and its table of
--   all trials. Of lab2, a send_all in channel_send that fails after a part of a frame, and the exit of
--   the receivers' loops when the connection is closed or in error: in the evaluation the sender's end
--   stays open until the receiver has returned. Of lab3, the configuration message, the stop tick and
--   the two floating-point quotients. Of the timers, the functions on floating-point times; averages and throughputs are left
--   out everywhere.
pub mod Bits
pub mod Lab1
pub mod Lab2
pub mod Lab3
pub mod Prelude
pub mod Utils
