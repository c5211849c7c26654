-- ===== src/Lab3/Loop.antt =====
-- lab3/channel.c: the main loop of `channel_serve` ends.
use mathlib.Core.Option.{some-injective}
use network_lab.Prelude.{
  ℕ, zero, suc, ◌+◌, ◌-◌, ◌^◌, ◌≤◌, ◌<◌, ◌≡◌, ◌⊎◌, inl, inr, refl, sym, false, ◌&&◌, some, List,
  arith, u32, ltb, bind-some, Bool-cases, Option-cases,
}
use network_lab.Lab3.Station.{Port, parse_actions}
use network_lab.Lab3.Serve.{
  ChannelParams, ServeState, Exchange, exchange, run_slot, serve_slot, ServeResult, returned_error,
  ended, cut, continue_with, serve_loop,
}

-- The loop has been left, by an error or because a part of its condition is false.
abbrev pub Concludes : ChannelParams → ServeResult → Type 0
Concludes params returned_error = Unit
Concludes params (ended s) = (s.slot ≡ params.max_slots) ⊎ (s.n_connected ≡ 0)
Concludes params cut = ⊥

run_slot-slot :
    (params : ChannelParams) (s s' : ServeState) (ps : List Port)
    → run_slot params s ps ≡ some s'
    → s'.slot ≡ u32 (s.slot + 1)
unfolding run_slot
run_slot-slot params s s' ps h =
    let (r, eq_r, h1) = bind-some (parse_actions s.slot ps _ s.n_connected) _ h in
    rw (sym (some-injective _ s' h1)) refl

serve_slot-slot :
    (params : ChannelParams) (s s' : ServeState) (es : List Exchange)
    → serve_slot params s es ≡ some s'
    → s'.slot ≡ u32 (s.slot + 1)
unfolding serve_slot
serve_slot-slot params s s' es h =
    let (ps, eq, h1) = bind-some (exchange s.slot s.ports es) _ h in run_slot-slot params s s' ps h1

left_loop :
    (params : ChannelParams) (s : ServeState)
    → s.slot ≤ params.max_slots
    → (ltb s.slot params.max_slots && ltb 0 s.n_connected) ≡ false
    → Concludes params (ended s)
left_loop params s le h = elim (Bool-cases (ltb s.slot params.max_slots)) [
  | inl e ↦ inr (ground arith)
  | inr e ↦ inl (ground arith)
]

-- The main loop of `channel_serve`, at a slot that is not past `max_slots`, which is an `int`: with
-- fuel for one turn more than the slots that are left, it returns an error or stops, and it stops
-- only at `max_slots` or when no station is connected, whatever the stations send.
pub serve_loop-Concludes :
    (params : ChannelParams) (input : ℕ → List Exchange) (fuel : ℕ) (s : ServeState)
    → params.max_slots < 2 ^ 31
    → s.slot ≤ params.max_slots
    → params.max_slots - s.slot < fuel
    → Concludes params (serve_loop params input fuel s)
unfolding serve_loop continue_with
serve_loop-Concludes params input zero s max le enough = absurd (omega arith)
serve_loop-Concludes params input (suc fuel) s max le enough =
    elim (Bool-cases (ltb s.slot params.max_slots && ltb 0 s.n_connected)) [
      | inr stop ↦ rw stop (left_loop params s le stop)
      | inl go ↦
          let lt : s.slot < params.max_slots = ground arith in
          rw go (elim (Option-cases (serve_slot params s (input s.slot))) [
            | inl fails ↦ rw fails tt
            | inr (s', steps) ↦
                let next = serve_slot-slot params s s' (input s.slot) steps in
                rw steps (
                  serve_loop-Concludes params input fuel s' max (omega (arith, next, lt))
                    (omega (arith, next, lt)))
          ])
    ]
