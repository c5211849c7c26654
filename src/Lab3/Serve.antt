-- ===== src/Lab3/Serve.antt =====
-- lab3/channel.c: `channel_serve`. The sockets are the input of each slot.
use network_lab.Prelude.{
  u64, ℕ, zero, suc, ◌+◌, Bool, true, false, ◌&&◌, Option, none, some, ◌>>=◌, List, [], ◌∷◌, map,
  replicate, u32, ◌==◌, ltb, if◌then◌else◌,
}
use network_lab.Lab3.Medium.{
  MediumState, medium_idle, medium_busy, medium_collision, channel_resolve_slot,
}
use network_lab.Lab3.Station.{
  Result, res_none, ChanStation, ActionMsg, Port, ChannelMetrics, parse_actions, mark_collided,
  end_transmissions,
}

pub record ChannelParams : Type 0 where
  pub n_stations : ℕ
  pub slot_frame_len : ℕ
  pub max_slots : ℕ

-- The locals of the main loop and the station table.
pub record ServeState : Type 0 where
  pub slot : ℕ
  pub prev_state : MediumState
  pub n_connected : ℕ
  pub metrics : ChannelMetrics
  pub ports : List Port

pub record TickMsg : Type 0 where
  pub slot : ℕ
  pub medium_state : MediumState
  pub last_result : Result
  pub should_stop : Bool

-- What the sockets do for one station in one slot: whether `send_all` takes the tick, and what
-- `recv_all` reads.
pub record Exchange : Type 0 where
  pub tick_taken : Bool
  pub reply : Option ActionMsg

abbrev pub zero_metrics : ChannelMetrics
zero_metrics = record {
  total_slots = 0;
  idle_slots = 0;
  busy_slots = 0;
  collision_slots = 0;
  collision_events = 0;
  collided_attempts = 0;
  attempts = 0;
  frames_delivered = 0;
  fcs_failures = 0;
  sum_delay_slots = 0;
}

-- A station that has just been accepted. The fields that nothing sets are the zeros of static
-- memory; `acts` is read only after it has been received.
abbrev pub fresh_port : Port
fresh_port = record {
  st = record {
    connected = true;
    active = false;
    start_slot = 0;
    collided = 0;
    enqueue_slot = 0;
    frame = replicate 65 0;
    pending_result = res_none;
  };
  act = record { slot = 0; action = 0; frame = replicate 65 0 };
}

unfoldable pub start : ChannelParams → ServeState
start params = record {
  slot = 0;
  prev_state = medium_idle;
  n_connected = params.n_stations;
  metrics = zero_metrics;
  ports = replicate params.n_stations fresh_port;
}

-- The tick of a connected station.
unfoldable pub tick : ℕ → MediumState → ChanStation → TickMsg
tick slot prev_state st = record {
  slot = slot;
  medium_state = prev_state;
  last_result = st.pending_result;
  should_stop = false;
}

-- One station's turn in the two loops that exchange messages; `none` is a return of -1.
unfoldable pub exchange_one : ℕ → Port → Exchange → Option Port
exchange_one slot p e =
    if p.st.connected
    then (if e.tick_taken
        then (e.reply >>= (λ msg.
            if msg.slot == slot
            then some (record { st = record (p.st) { pending_result = res_none }; act = msg })
            else none))
        else none)
    else some p

-- The two loops together. An input that ends early is a closed connection.
unfoldable pub exchange : ℕ → List Port → List Exchange → Option (List Port)
exchange slot [] es = some []
exchange slot (p ∷ ps) [] = none
exchange slot (p ∷ ps) (e ∷ es) =
    exchange_one slot p e >>= (λ p'. exchange slot ps es >>= (λ ps'. some (p' ∷ ps')))

abbrev count_event : Bool → ℕ → ℕ
count_event true n = u64 (n + 1)
count_event false n = n

-- The counters of slots, by the state of the medium.
unfoldable pub count_slot : MediumState → Bool → ChannelMetrics → ChannelMetrics
count_slot medium_idle new_event m = record m {
  total_slots = u64 (m.total_slots + 1);
  idle_slots = u64 (m.idle_slots + 1);
}
count_slot medium_busy new_event m = record m {
  total_slots = u64 (m.total_slots + 1);
  busy_slots = u64 (m.busy_slots + 1);
}
count_slot medium_collision new_event m = record m {
  total_slots = u64 (m.total_slots + 1);
  collision_slots = u64 (m.collision_slots + 1);
  collision_events = count_event new_event m.collision_events;
}

unfoldable pub mark_all : MediumState → List Port → List Port
mark_all medium_idle ps = ps
mark_all medium_busy ps = ps
mark_all medium_collision ps = map mark_collided ps

abbrev pub actions : List Port → List ℕ
actions ps = map (λ (p : Port). p.act.action) ps

-- The body of the main loop after the messages of the slot have been exchanged.
unfoldable pub run_slot : ChannelParams → ServeState → List Port → Option ServeState
run_slot params s ps =
    let outcome = channel_resolve_slot (actions ps) s.prev_state in
    parse_actions s.slot ps (count_slot outcome.state outcome.new_collision_event s.metrics)
      s.n_connected
    >>= (λ r.
        let ended =
          end_transmissions s.slot params.slot_frame_len (mark_all outcome.state r.0) r.1.0 in
        some (record {
          slot = u32 (s.slot + 1);
          prev_state = outcome.state;
          n_connected = r.1.1;
          metrics = ended.1;
          ports = ended.0;
        }))

unfoldable pub serve_slot : ChannelParams → ServeState → List Exchange → Option ServeState
serve_slot params s es = exchange s.slot s.ports es >>= run_slot params s

pub data ServeResult : Type 0 where
  returned_error : ServeResult
  ended : ServeState → ServeResult
  cut : ServeResult

unfoldable pub continue_with : (ServeState → ServeResult) → Option ServeState → ServeResult
continue_with loop none = returned_error
continue_with loop (some s) = loop s

-- The main loop. `cut` is a loop that has run out of fuel, which the code does not know.
unfoldable pub serve_loop : ChannelParams → (ℕ → List Exchange) → ℕ → ServeState → ServeResult
serve_loop params input zero s = cut
serve_loop params input (suc fuel) s =
    let rest = serve_loop params input fuel in
    if ltb s.slot params.max_slots && ltb 0 s.n_connected
    then continue_with rest (serve_slot params s (input s.slot))
    else ended s
