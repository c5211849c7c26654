-- ===== src/Lab3/Throughput.antt =====
-- lab3/channel.c: the run of `channel_serve` with stations that keep on sending what they began.
use mathlib.Core.Option.{some-injective}
use network_lab.Prelude.{
  ℕ, zero, suc, ◌+◌, ◌*◌, ◌^◌, ◌≤◌, ◌<◌, ◌≡◌, refl, sym, ap, ◌∙◌, u32, Bool, some, List, [], ◌∷◌,
  arith, All, All-map, bind-some, replicate,
}
use network_lab.Lab3.Medium.{SlotOutcome, medium_from_txcount, count_actions, channel_resolve_slot}
use network_lab.Lab3.Station.{Port, ChannelMetrics, parse_actions}
use network_lab.Lab3.Serve.{
  ChannelParams, ServeState, Exchange, fresh_port, start, exchange_one, exchange, count_slot,
  mark_all, actions, run_slot,
}
use network_lab.Lab3.Progress.{
  KeepsOn, StartedBy, age_one, progress, parse_actions-progress, progress-suc,
  progress-mark_collided, mark_collided-StartedBy,
}
use network_lab.Lab3.Ending.{end_transmissions-progress}

-- The states in which the main loop tests its condition.
pub data Serves (params : ChannelParams) : ServeState → Type 0 where
  begins : Serves params (start params)
  serves :
      {s s' : ServeState} (es : List Exchange) (ps : List Port)
      → Serves params s
      → s.slot < params.max_slots
      → exchange s.slot s.ports es ≡ some ps
      → All KeepsOn ps
      → run_slot params s ps ≡ some s'
      → Serves params s'

pub record Inv (params : ChannelParams) (s : ServeState) : Type 0 where
  pub budget :
      s.metrics.frames_delivered * params.slot_frame_len + progress s.slot s.ports
      ≤ s.metrics.busy_slots
  pub sorted :
      s.metrics.idle_slots + s.metrics.busy_slots + s.metrics.collision_slots
      ≡ s.metrics.total_slots
  pub counted : s.metrics.total_slots ≡ s.slot
  pub started : All (StartedBy s.slot) s.ports
  pub in_time : s.slot ≤ params.max_slots

exchange_one-progress :
    (slot : ℕ) (p : Port) (e : Exchange) (p' : Port)
    → exchange_one slot p e ≡ some p'
    → p'.st.start_slot ≡ p.st.start_slot × age_one slot p' ≡ age_one slot p
unfolding exchange_one
exchange_one-progress slot p e p' h = ground arith

exchange-progress :
    (slot : ℕ) (ps : List Port) (es : List Exchange) (ps' : List Port)
    → exchange slot ps es ≡ some ps'
    → All (StartedBy slot) ps
    → All (StartedBy slot) ps' × (progress slot ps' ≡ progress slot ps)
unfolding exchange
exchange-progress slot [] es ps' h started = rw (sym (some-injective [] ps' h)) (tt, refl)
exchange-progress slot (p ∷ ps) [] ps' h started = ground arith
exchange-progress slot (p ∷ ps) (e ∷ es) ps' h started =
    let (one, eq_one, h1) = bind-some (exchange_one slot p e) _ h in
    let (rest, eq_rest, h2) = bind-some (exchange slot ps es) _ h1 in
    let (start1, age1) = exchange_one-progress slot p e one eq_one in
    let (s2, age2) = exchange-progress slot ps es rest eq_rest started.1 in
    let s0 = started.0 in
    rw (sym (some-injective (one ∷ rest) ps' h2))
      ((omega (arith, start1, s0), s2), omega (arith, age1, age2))

abbrev busy_part : ℕ → ℕ
busy_part zero = 0
busy_part (suc zero) = 1
busy_part (suc (suc n)) = 0

count_slot-sorted :
    (tx : ℕ) (event : Bool) (m : ChannelMetrics)
    → m.idle_slots + m.busy_slots + m.collision_slots ≡ m.total_slots
    → m.total_slots < 2 ^ 31
    → let m' = count_slot (medium_from_txcount tx) event m in
      (m'.frames_delivered ≡ m.frames_delivered)
      × (m'.idle_slots + m'.busy_slots + m'.collision_slots ≡ m'.total_slots)
      × (m'.busy_slots ≡ m.busy_slots + busy_part tx)
      × (m'.total_slots ≡ m.total_slots + 1)
unfolding count_slot medium_from_txcount
count_slot-sorted zero event m sorted fits = omega arith
count_slot-sorted (suc zero) event m sorted fits = omega arith
count_slot-sorted (suc (suc tx)) event m sorted fits = omega arith

mark_all-progress :
    (slot tx : ℕ) (ps : List Port)
    → tx ≡ (count_actions (actions ps) 0 0).0
    → All (StartedBy slot) ps
    → All KeepsOn ps
    → All (StartedBy slot) (mark_all (medium_from_txcount tx) ps)
      × (progress (slot + 1) (mark_all (medium_from_txcount tx) ps)
          ≤ progress slot ps + busy_part tx)
unfolding mark_all medium_from_txcount
mark_all-progress slot zero ps count started keeps =
    (started, omega (arith, progress-suc slot ps started keeps))
mark_all-progress slot (suc zero) ps count started keeps =
    (started, omega (arith, progress-suc slot ps started keeps))
mark_all-progress slot (suc (suc tx)) ps count started keeps = (
  mark_collided-StartedBy slot ps started,
  omega (arith, progress-mark_collided (slot + 1) ps keeps),
)

run_slot-Inv :
    (params : ChannelParams) (s s' : ServeState) (ps : List Port)
    → Inv params s
    → params.max_slots < 2 ^ 31
    → s.slot < params.max_slots
    → All (StartedBy s.slot) ps
    → (progress s.slot ps ≡ progress s.slot s.ports)
    → All KeepsOn ps
    → run_slot params s ps ≡ some s'
    → Inv params s'
unfolding run_slot channel_resolve_slot
run_slot-Inv params s s' ps v max lt started same keeps h =
    let tx : ℕ = (count_actions (actions ps) 0 0).0 in
    let outcome : SlotOutcome = channel_resolve_slot (actions ps) s.prev_state in
    let m1 : ChannelMetrics =
      count_slot (medium_from_txcount tx) outcome.new_collision_event s.metrics in
    let (r, eq_r, h1) = bind-some (parse_actions s.slot ps m1 s.n_connected) _ h in
    let count = v.counted in
    let early = v.in_time in
    let (kept1, sum1, busy1, total1) =
      count_slot-sorted tx outcome.new_collision_event s.metrics v.sorted (omega arith) in
    let (started2, keeps2, acts2, age2, same2) =
      parse_actions-progress s.slot ps m1 s.n_connected r eq_r started keeps in
    let (started3, age3) =
      mark_all-progress s.slot tx r.0
        (ap (λ (codes : List ℕ). (count_actions codes 0 0).0) (sym acts2)) started2 keeps2 in
    let marked : List Port = mark_all (medium_from_txcount tx) r.0 in
    let (started4, age4, same4) =
      end_transmissions-progress s.slot params.slot_frame_len marked r.1.0 (omega arith) started3 in
    let kept : r.1.0.frames_delivered * params.slot_frame_len
        ≡ s.metrics.frames_delivered * params.slot_frame_len =
      ap (λ d. d * params.slot_frame_len) (same2.0 ∙ kept1) in
    let next : u32 (s.slot + 1) ≡ s.slot + 1 = omega arith in
    let b = v.budget in
    rw (sym (some-injective _ s' h1)) (
      rw next (record {
        budget = omega (arith, b, kept, same, busy1, same2, same4, age2, age3, age4);
        sorted = omega (arith, sum1, same2, same4);
        counted = omega (arith, total1, same2, same4);
        started =
            All-map (StartedBy s.slot) (StartedBy (s.slot + 1)) _ (λ p le. omega arith) started4;
        in_time = omega arith;
      }))

replicate-StartedBy : (n : ℕ) → All (StartedBy 0) (replicate n fresh_port)
replicate-StartedBy zero = tt
replicate-StartedBy (suc n) = (omega arith, replicate-StartedBy n)

progress-replicate : (n : ℕ) → progress 0 (replicate n fresh_port) ≡ 0
progress-replicate zero = refl
progress-replicate (suc n) = omega (arith, progress-replicate n)

Serves-Inv :
    (params : ChannelParams) {s : ServeState}
    → params.max_slots < 2 ^ 31
    → Serves params s
    → Inv params s
unfolding start
Serves-Inv params max begins = record {
  budget = omega (arith, progress-replicate params.n_stations);
  sorted = refl;
  counted = refl;
  started = replicate-StartedBy params.n_stations;
  in_time = omega arith;
}
Serves-Inv params max (serves {s = s} {s' = s'} es ps before lt got keeps ran) =
    let v = Serves-Inv params max before in
    let (started, same) = exchange-progress s.slot s.ports es ps got v.started in
    run_slot-Inv params s s' ps v max lt started same keeps ran

-- If every station that is in the middle of a transmission sends or jams in every slot, and
-- `max_slots` is an `int`, then whenever the main loop of `channel_serve` tests its condition the
-- delivered frames times the frame time are at most the slots that were counted busy: the
-- throughput is at most 1. The idle, busy and collision slots
-- add up to the slots that have passed.
pub frames_delivered-busy_slots :
    (params : ChannelParams) {s : ServeState}
    → params.max_slots < 2 ^ 31
    → Serves params s
    → (s.metrics.frames_delivered * params.slot_frame_len ≤ s.metrics.busy_slots)
      × (s.metrics.idle_slots + s.metrics.busy_slots + s.metrics.collision_slots ≡ s.slot)
      × (s.metrics.total_slots ≡ s.slot)
frames_delivered-busy_slots params max run =
    let v = Serves-Inv params max run in
    let b = v.budget in
    let sum = v.sorted in
    let count = v.counted in (omega (arith, b), omega (arith, sum, count), count)
