-- ===== src/Lab3/Medium.antt =====
-- lab3/protocol.h and lab3/channel.c: the state of the medium in one slot.
use network_lab.Prelude.{
  ℕ, zero, suc, ◌+◌, Bool, true, false, ◌&&◌, ◌||◌, not, List, [], ◌∷◌, ◌==◌, if◌then◌else◌,
}

pub data MediumState : Type 0 where
  medium_idle : MediumState
  medium_busy : MediumState
  medium_collision : MediumState

-- `action_type_t`, as the byte that a station sends
abbrev pub act_idle : ℕ
act_idle = 0

abbrev pub act_start : ℕ
act_start = 1

abbrev pub act_transmit : ℕ
act_transmit = 2

abbrev pub act_jam : ℕ
act_jam = 3

abbrev pub act_done : ℕ
act_done = 4

pub record SlotOutcome : Type 0 where
  pub state : MediumState
  pub transmitters : ℕ
  pub starts : ℕ
  pub new_collision_event : Bool

unfoldable pub medium_from_txcount : ℕ → MediumState
medium_from_txcount zero = medium_idle
medium_from_txcount (suc zero) = medium_busy
medium_from_txcount (suc (suc n)) = medium_collision

abbrev pub is_collision : MediumState → Bool
is_collision medium_idle = false
is_collision medium_busy = false
is_collision medium_collision = true

-- The loop over `actions`, with its two counters.
unfoldable pub count_actions : List ℕ → ℕ → ℕ → ℕ × ℕ
count_actions [] tx starts = (tx, starts)
count_actions (action ∷ actions) tx starts =
    let rest = count_actions actions in
    if action == act_start
    then rest (tx + 1) (starts + 1)
    else if (action == act_transmit) || (action == act_jam)
    then rest (tx + 1) starts
    else rest tx starts

unfoldable pub channel_resolve_slot : List ℕ → MediumState → SlotOutcome
channel_resolve_slot actions prev_state =
    let (tx, starts) = count_actions actions 0 0 in
    let medium_state = medium_from_txcount tx in
    record {
      state = medium_state;
      transmitters = tx;
      starts = starts;
      new_collision_event = is_collision medium_state && not (is_collision prev_state);
    }
