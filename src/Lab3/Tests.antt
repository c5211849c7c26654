-- ===== src/Lab3/Tests.antt =====
-- Runs of the CSMA channel with two stations.
use mathlib.Core.Option
use network_lab.Prelude.{ℕ, ◌*◌, ◌+◌, ◌≤◌, ◌≡◌, refl, true, some, List, [], ◌∷◌, replicate, arith}
use network_lab.Lab1.Checksum.{
  checksum16_compute, checksum16_verify, ones_comp_sum, sum_loop, carry_loop, word_of,
}
use network_lab.Lab1.Scheme.{compute_fcs, verify_fcs}
use network_lab.Lab1.Frame.{zero_frame, to_bytes, of_bytes, covered}
use network_lab.Lab1.Frame.Seal.{fcs_of, seal}
use network_lab.Lab3.Medium.{
  channel_resolve_slot, count_actions, medium_from_txcount, act_idle, act_start, act_transmit,
}
use network_lab.Lab3.Station.{
  Port, parse_actions, parse_one, begin_transmission, frame_enqueue_slot, end_attempt, conclude,
  end_one, end_transmissions, frame_passes,
}
use network_lab.Lab3.Serve.{
  ChannelParams, ServeState, Exchange, start, exchange, exchange_one, count_slot, mark_all,
  run_slot, serve_loop,
}
use network_lab.Lab3.Throughput.{Serves, begins, serves, frames_delivered-busy_slots}
use network_lab.Lab3.Loop.{Concludes, serve_loop-Concludes}

abbrev two_stations : ChannelParams
two_stations = record { n_stations = 2; slot_frame_len = 2; max_slots = 10 }

abbrev sealed_frame : List ℕ
sealed_frame =
    to_bytes (seal (record zero_frame { payload = 0 ∷ (0 ∷ (0 ∷ (0 ∷ replicate 40 5))) }))

abbrev says : ℕ → ℕ → Exchange
says slot action = record {
  tick_taken = true;
  reply = some (record { slot = slot; action = action; frame = sealed_frame });
}

-- The first station sends a frame in slots 0 and 1, the second is silent.
abbrev input : ℕ → List Exchange
input slot = elim slot [
  | ℕ.zero ↦ says 0 act_start ∷ (says 0 act_idle ∷ [])
  | ℕ.suc n ↦ says (n + 1) act_transmit ∷ (says (n + 1) act_idle ∷ [])
]

abbrev ports_at : ServeState → List Port
ports_at s = Option.get_or (exchange s.slot s.ports (input s.slot)) []

abbrev step : ServeState → ServeState
step s = Option.get_or (run_slot two_stations s (ports_at s)) s

abbrev after_start : ServeState
after_start = step (start two_stations)

abbrev after_frame : ServeState
after_frame = step after_start

delivered : after_frame.metrics.frames_delivered ≡ 1
unfolding start exchange exchange_one run_slot channel_resolve_slot count_actions
    medium_from_txcount count_slot mark_all parse_actions parse_one begin_transmission
    frame_enqueue_slot end_transmissions end_one conclude end_attempt frame_passes verify_fcs
    checksum16_verify ones_comp_sum sum_loop carry_loop word_of of_bytes to_bytes covered seal
    fcs_of compute_fcs checksum16_compute
delivered = refl

run : Serves two_stations after_frame
unfolding start exchange exchange_one run_slot channel_resolve_slot count_actions
    medium_from_txcount count_slot mark_all parse_actions parse_one begin_transmission
    frame_enqueue_slot end_transmissions end_one conclude end_attempt frame_passes verify_fcs
    checksum16_verify ones_comp_sum sum_loop carry_loop word_of of_bytes to_bytes covered seal
    fcs_of compute_fcs checksum16_compute
run =
    serves (input 1) (ports_at after_start)
      (serves (input 0) (ports_at (start two_stations)) begins (omega arith) refl
        ((λ c a. refl), ((λ c a. ground arith), tt)) refl)
      (omega arith) refl ((λ c a. refl), ((λ c a. ground arith), tt)) refl

frames_delivered-busy_slots_example :
    (after_frame.metrics.frames_delivered * 2 ≤ after_frame.metrics.busy_slots)
    × (after_frame.metrics.idle_slots + after_frame.metrics.busy_slots
          + after_frame.metrics.collision_slots
        ≡ after_frame.slot)
    × (after_frame.metrics.total_slots ≡ after_frame.slot)
frames_delivered-busy_slots_example =
    frames_delivered-busy_slots two_stations {s = after_frame} (omega arith) run

serve_loop-Concludes_example :
    Concludes two_stations (serve_loop two_stations input 11 (start two_stations))
unfolding start
serve_loop-Concludes_example =
    serve_loop-Concludes two_stations input 11 (start two_stations) (omega arith) (omega arith)
      (omega arith)
