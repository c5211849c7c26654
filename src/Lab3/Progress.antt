-- ===== src/Lab3/Progress.antt =====
-- lab3/channel.c: how far the transmissions that have met no collision have come.
use network_lab.Prelude.{
  ℕ, ◌+◌, ◌-◌, ◌≤◌, ◌≡◌, refl, Bool, true, ◌&&◌, some, List, [], ◌∷◌, map, arith, All, ap₂, sym,
  ◌==◌, if◌then◌else◌, bind-some,
}
use mathlib.Core.Option.{some-injective}
use network_lab.Lab3.Medium.{count_actions}
use network_lab.Lab3.Station.{
  ActionMsg, Port, ChannelMetrics, begin_transmission, parse_one, parse_actions, mark_collided,
  is_transmitting,
}
use network_lab.Lab3.Serve.{actions}

-- A station in the middle of a transmission sends or jams in this slot.
abbrev pub KeepsOn : Port → Type 0
KeepsOn p = p.st.connected ≡ true → p.st.active ≡ true → is_transmitting p.act.action ≡ true

abbrev pub StartedBy : ℕ → Port → Type 0
StartedBy slot p = p.st.start_slot ≤ slot

-- A transmission that has met no collision.
abbrev pub is_clear : Port → Bool
is_clear p = p.st.connected && (p.st.active && (p.st.collided == 0))

abbrev pub age_one : ℕ → Port → ℕ
age_one slot p = if is_clear p then slot - p.st.start_slot else 0

-- The ages of the clear transmissions, added up.
abbrev pub progress : ℕ → List Port → ℕ
progress slot [] = 0
progress slot (p ∷ ps) = age_one slot p + progress slot ps

-- The counters that stand for slots.
abbrev pub SameSlots : ChannelMetrics → ChannelMetrics → Type 0
SameSlots m m' =
    (m'.total_slots ≡ m.total_slots)
    × (m'.idle_slots ≡ m.idle_slots)
    × (m'.busy_slots ≡ m.busy_slots)
    × (m'.collision_slots ≡ m.collision_slots)

-- These and for frames delivered.
abbrev pub SameCounts : ChannelMetrics → ChannelMetrics → Type 0
SameCounts m m' = (m'.frames_delivered ≡ m.frames_delivered) × SameSlots m m'

parse_one-progress :
    (slot : ℕ) (p : Port) (m : ChannelMetrics) (n : ℕ) (r : Port × (ChannelMetrics × ℕ))
    → parse_one slot p m n ≡ some r
    → StartedBy slot p
    → KeepsOn p
    → StartedBy slot r.0
      × KeepsOn r.0
      × (r.0.act ≡ p.act)
      × (age_one slot r.0 ≤ age_one slot p)
      × SameCounts m r.1.0
unfolding parse_one begin_transmission
parse_one-progress slot p m n r h started keeps = ground arith

pub parse_actions-progress :
    (slot : ℕ) (ps : List Port) (m : ChannelMetrics) (n : ℕ) (r : List Port × (ChannelMetrics × ℕ))
    → parse_actions slot ps m n ≡ some r
    → All (StartedBy slot) ps
    → All KeepsOn ps
    → All (StartedBy slot) r.0
      × All KeepsOn r.0
      × (actions r.0 ≡ actions ps)
      × (progress slot r.0 ≤ progress slot ps)
      × SameCounts m r.1.0
unfolding parse_actions
parse_actions-progress slot [] m n r h started keeps =
    let e : ([], (m, n)) ≡ r = some-injective ([], (m, n)) r h in
    rw (sym e) (tt, tt, refl, omega arith, (refl, (refl, refl, refl, refl)))
parse_actions-progress slot (p ∷ ps) m n r h started keeps =
    let (one, eq_one, h1) = bind-some (parse_one slot p m n) _ h in
    let (rest, eq_rest, h2) = bind-some (parse_actions slot ps one.1.0 one.1.1) _ h1 in
    let (s1, k1, act1, age1, same1) = parse_one-progress slot p m n one eq_one started.0 keeps.0 in
    let (s2, k2, act2, age2, same2) =
      parse_actions-progress slot ps one.1.0 one.1.1 rest eq_rest started.1 keeps.1 in
    let e : (one.0 ∷ rest.0, rest.1) ≡ r = some-injective (one.0 ∷ rest.0, rest.1) r h2 in
    let same : SameCounts m rest.1.0 = omega (arith, same1, same2) in
    rw (sym e) (
      (s1, s2),
      (k1, k2),
      ap₂ (λ (a : ActionMsg) (tail : List ℕ). a.action ∷ tail) act1 act2,
      omega (arith, age1, age2),
      same,
    )

-- The accumulator of `count_actions` is added to the count.
abbrev transmitting : List ℕ → ℕ
transmitting [] = 0
transmitting (a ∷ codes) = (if is_transmitting a then 1 else 0) + transmitting codes

count_actions-transmitting :
    (codes : List ℕ) (tx starts : ℕ) → (count_actions codes tx starts).0 ≡ tx + transmitting codes
unfolding count_actions
count_actions-transmitting [] tx starts = omega arith
count_actions-transmitting (a ∷ codes) tx starts = ground (
  arith,
  count_actions-transmitting codes (tx + 1) (starts + 1),
  count_actions-transmitting codes (tx + 1) starts,
  count_actions-transmitting codes tx starts,
)

-- One slot later every clear transmission is one slot older, and each of them is counted.
progress-transmitting :
    (slot : ℕ) (ps : List Port)
    → All (StartedBy slot) ps
    → All KeepsOn ps
    → progress (slot + 1) ps ≤ progress slot ps + transmitting (actions ps)
progress-transmitting slot [] started keeps = omega arith
progress-transmitting slot (p ∷ ps) started keeps =
    let ih = progress-transmitting slot ps started.1 keeps.1 in
    let k = keeps.0 in let one = started.0 in ground arith

pub progress-suc :
    (slot : ℕ) (ps : List Port)
    → All (StartedBy slot) ps
    → All KeepsOn ps
    → progress (slot + 1) ps ≤ progress slot ps + (count_actions (actions ps) 0 0).0
progress-suc slot ps started keeps = omega (
  arith,
  progress-transmitting slot ps started keeps,
  count_actions-transmitting (actions ps) 0 0,
)

-- A collision leaves no transmission clear.
mark_collided-age : (slot : ℕ) (p : Port) → KeepsOn p → age_one slot (mark_collided p) ≡ 0
unfolding mark_collided
mark_collided-age slot p keeps = ground arith

pub progress-mark_collided :
    (slot : ℕ) (ps : List Port) → All KeepsOn ps → progress slot (map mark_collided ps) ≡ 0
progress-mark_collided slot [] keeps = refl
progress-mark_collided slot (p ∷ ps) keeps =
    omega (arith, mark_collided-age slot p keeps.0, progress-mark_collided slot ps keeps.1)

pub mark_collided-StartedBy :
    (slot : ℕ) (ps : List Port)
    → All (StartedBy slot) ps
    → All (StartedBy slot) (map mark_collided ps)
unfolding mark_collided
mark_collided-StartedBy slot [] started = tt
mark_collided-StartedBy slot (p ∷ ps) started =
    let one = started.0 in (ground arith, mark_collided-StartedBy slot ps started.1)
