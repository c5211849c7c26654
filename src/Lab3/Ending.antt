-- ===== src/Lab3/Ending.antt =====
-- lab3/channel.c: a delivery takes a whole frame time of its transmission.
use native.Mathlib.Nat.{mul-le-mul_right}
use network_lab.Prelude.{u64, ℕ, ◌+◌, ◌*◌, ◌^◌, ◌≤◌, ◌<◌, refl, List, [], ◌∷◌, arith, All}
use network_lab.Lab3.Station.{
  Port, ChannelMetrics, end_attempt, conclude, end_one, end_transmissions,
}
use network_lab.Lab3.Progress.{SameSlots, StartedBy, age_one, progress}

u64-product : (d t : ℕ) → u64 (d + 1) * t ≤ d * t + t
u64-product d t =
    let fits : u64 (d + 1) ≤ d + 1 = omega arith in omega (arith, mul-le-mul_right t fits)

end_one-progress :
    (slot t : ℕ) (p : Port) (m : ChannelMetrics)
    → slot + 1 < 2 ^ 32
    → StartedBy slot p
    → StartedBy slot (end_one slot t p m).0
      × ((end_one slot t p m).1.frames_delivered * t + age_one (slot + 1) (end_one slot t p m).0
          ≤ m.frames_delivered * t + age_one (slot + 1) p)
      × SameSlots m (end_one slot t p m).1
unfolding end_one conclude end_attempt
end_one-progress slot t p m fits started =
    let product = u64-product m.frames_delivered t in ground arith

pub end_transmissions-progress :
    (slot t : ℕ) (ps : List Port) (m : ChannelMetrics)
    → slot + 1 < 2 ^ 32
    → All (StartedBy slot) ps
    → All (StartedBy slot) (end_transmissions slot t ps m).0
      × ((end_transmissions slot t ps m).1.frames_delivered * t
            + progress (slot + 1) (end_transmissions slot t ps m).0
          ≤ m.frames_delivered * t + progress (slot + 1) ps)
      × SameSlots m (end_transmissions slot t ps m).1
unfolding end_transmissions
end_transmissions-progress slot t [] m fits started = (tt, omega arith, (refl, refl, refl, refl))
end_transmissions-progress slot t (p ∷ ps) m fits started =
    let m' = (end_one slot t p m).1 in
    let (s1, le1, same1) = end_one-progress slot t p m fits started.0 in
    let (s2, le2, same2) = end_transmissions-progress slot t ps m' fits started.1 in
    ((s1, s2), omega (arith, le1, le2), omega (arith, same1, same2))
