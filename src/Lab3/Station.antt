-- ===== src/Lab3/Station.antt =====
-- lab3/channel.c: the station table `st`, and the three loops of a slot that change it.
use network_lab.Prelude.{
  u64, ℕ, ◌+◌, ◌-◌, ◌*◌, ◌^◌, Bool, true, false, ◌&&◌, ◌||◌, Option, none, some, ◌>>=◌, List, [],
  ◌∷◌, u32, get_or, ◌==◌, leb, if◌then◌else◌,
}
use mathlib.Core.Option
use network_lab.Lab1.Scheme.{checksum16, verify_fcs}
use network_lab.Lab1.Frame.{frame_size, trailer_size, of_bytes}
use network_lab.Lab3.Medium.{act_start, act_transmit, act_jam, act_done}

pub data Result : Type 0 where
  res_none : Result
  res_success : Result
  res_collision : Result

-- `chan_station_t`; `frame` is the 65 bytes
pub record ChanStation : Type 0 where
  pub connected : Bool
  pub active : Bool
  pub start_slot : ℕ
  pub collided : ℕ
  pub enqueue_slot : ℕ
  pub frame : List ℕ
  pub pending_result : Result

-- `action_msg_t`, its `slot` as `ntohl` reads it
pub record ActionMsg : Type 0 where
  pub slot : ℕ
  pub action : ℕ
  pub frame : List ℕ

-- `st[id]` with `acts[id]`. `actions_buf[id]` is always the `action` of the latter.
pub record Port : Type 0 where
  pub st : ChanStation
  pub act : ActionMsg

-- The counters of `channel_metrics_t`, each a `uint64_t`.
pub record ChannelMetrics : Type 0 where
  pub total_slots : ℕ
  pub idle_slots : ℕ
  pub busy_slots : ℕ
  pub collision_slots : ℕ
  pub collision_events : ℕ
  pub collided_attempts : ℕ
  pub attempts : ℕ
  pub frames_delivered : ℕ
  pub fcs_failures : ℕ
  pub sum_delay_slots : ℕ

-- `ntohl(frame_sim_csma(frame)->enqueue_slot)`: the first four bytes of the payload.
unfoldable pub frame_enqueue_slot : List ℕ → ℕ
frame_enqueue_slot bytes =
    let p = (of_bytes bytes).payload in
    get_or p 0 0 * 16777216 + get_or p 1 0 * 65536 + get_or p 2 0 * 256 + get_or p 3 0

-- ACT_START captures the frame of the message.
unfoldable pub begin_transmission : ℕ → Port → Port
begin_transmission slot p = record p {
  st = record (p.st) {
    active = true;
    start_slot = slot;
    collided = 0;
    enqueue_slot = frame_enqueue_slot (p.act.frame);
    frame = p.act.frame;
  };
}

-- Parse one station's action into `st`; `none` is the return of -1 when the station leaves in the
-- middle of its transmission.
unfoldable pub parse_one : ℕ → Port → ChannelMetrics → ℕ → Option (Port × (ChannelMetrics × ℕ))
parse_one slot p m n =
    if p.st.connected && (p.act.action == act_start)
    then some (begin_transmission slot p, (record m { attempts = u64 (m.attempts + 1) }, n))
    else if p.st.connected && (p.act.action == act_done)
    then (if p.st.active
        then none
        else some (record p { st = record (p.st) { connected = false } }, (m, n - 1)))
    else some (p, (m, n))

unfoldable pub parse_actions :
    ℕ → List Port → ChannelMetrics → ℕ → Option (List Port × (ChannelMetrics × ℕ))
parse_actions slot [] m n = some ([], (m, n))
parse_actions slot (p ∷ ps) m n =
    parse_one slot p m n
    >>= (λ r. parse_actions slot ps r.1.0 r.1.1 >>= (λ rest. some (r.0 ∷ rest.0, rest.1)))

abbrev pub is_transmitting : ℕ → Bool
is_transmitting action = (action == act_start) || ((action == act_transmit) || (action == act_jam))

-- The loop of a slot in which the medium is in collision, for one station.
unfoldable pub mark_collided : Port → Port
mark_collided p =
    if p.st.connected && (p.st.active && is_transmitting p.act.action)
    then record p { st = record (p.st) { collided = p.st.collided + 1 } }
    else p

unfoldable pub end_attempt : Port → Result → Port
end_attempt p result = record p { st = record (p.st) { active = false; pending_result = result } }

-- `start_slot + slot_frame_len - enqueue_slot` in unsigned 32-bit arithmetic
abbrev pub delay_slots : ℕ → ChanStation → ℕ
delay_slots t_frame st = u32 (st.start_slot + t_frame + 2 ^ 32 - st.enqueue_slot)

-- `verify_fcs` on the captured frame. The array is the whole frame, so the read stays inside it and
-- the default is not used.
unfoldable pub frame_passes : List ℕ → Bool
frame_passes bytes =
    Option.get_or
      (verify_fcs checksum16 bytes (frame_size - trailer_size) (of_bytes bytes).trailer.fcs) false

-- A transmission whose frame time is over.
unfoldable pub conclude : ℕ → Port → ChannelMetrics → Port × ChannelMetrics
conclude t_frame p m =
    if p.st.collided == 0
    then (if frame_passes p.st.frame
        then (
          end_attempt p res_success,
          record m {
            frames_delivered = u64 (m.frames_delivered + 1);
            sum_delay_slots = u64 (m.sum_delay_slots + delay_slots t_frame p.st);
          },
        )
        else (end_attempt p res_collision, record m { fcs_failures = u64 (m.fcs_failures + 1) }))
    else (
      end_attempt p res_collision,
      record m { collided_attempts = u64 (m.collided_attempts + 1) },
    )

abbrev pub frame_age : ℕ → ChanStation → ℕ
frame_age slot st = u32 (slot + 2 ^ 32 - st.start_slot + 1)

-- The body of the loop that ends transmissions, for one station.
unfoldable pub end_one : ℕ → ℕ → Port → ChannelMetrics → Port × ChannelMetrics
end_one slot t_frame p m =
    if p.st.connected && p.st.active
    then (if p.act.action == act_jam
        then (
          end_attempt p res_collision,
          record m { collided_attempts = u64 (m.collided_attempts + 1) },
        )
        else if leb t_frame (frame_age slot p.st)
        then conclude t_frame p m
        else (p, m))
    else (p, m)

unfoldable pub end_transmissions : ℕ → ℕ → List Port → ChannelMetrics → List Port × ChannelMetrics
end_transmissions slot t_frame [] m = ([], m)
end_transmissions slot t_frame (p ∷ ps) m =
    let (p', m') = end_one slot t_frame p m in
    let (ps', m'') = end_transmissions slot t_frame ps m' in (p' ∷ ps', m'')
