-- ===== src/Lab2/Timer/Expiry.antt =====
-- lab2/timer.c: a timer expires when its own time is over, whatever is done to the others.
use network_lab.Prelude.{
  ℕ, ◌+◌, ◌^◌, ◌≤◌, ◌<◌, ◌≡◌, ◌≢◌, ◌↔◌, true, false, List, [], ◌∷◌, arith, All,
}
use network_lab.Lab2.Timer.{
  Timer, TimerCall, start_window, stop_window, window_expired, start_frame, stop_frame,
  frame_expired, reset_stats, timer_call, timer_start_window, timer_stop_window,
  timer_window_expired, timer_start_frame, timer_stop_frame, timer_frame_expired, timer_reset_stats,
}

abbrev pub timer_calls : List TimerCall → Timer → Timer
timer_calls [] t = t
timer_calls (c ∷ cs) t = timer_calls cs (timer_call c t)

abbrev pub LeavesFrame : ℕ → TimerCall → Type 0
LeavesFrame seq_num (start_window now) = Unit
LeavesFrame seq_num stop_window = Unit
LeavesFrame seq_num (window_expired now) = Unit
LeavesFrame seq_num (start_frame now k) = Unit
LeavesFrame seq_num (stop_frame k) = k ≢ seq_num
LeavesFrame seq_num (frame_expired now k) = Unit
LeavesFrame seq_num reset_stats = Unit

-- The frame's timer runs since `sent`, with the timeout `rto`.
abbrev RunsSince : ℕ → ℕ → ℕ → Timer → Type 0
RunsSince seq_num sent rto t =
    ((t.slots seq_num).in_use ≡ true) × ((t.slots seq_num).send_time_ns ≡ sent) × (t.rto_ns ≡ rto)

timer_call-RunsSince :
    (seq_num sent rto : ℕ) (c : TimerCall) (t : Timer)
    → LeavesFrame seq_num c
    → RunsSince seq_num sent rto t
    → RunsSince seq_num sent rto (timer_call c t)
unfolding timer_call timer_start_window timer_stop_window timer_window_expired timer_start_frame
    timer_stop_frame timer_frame_expired timer_reset_stats
timer_call-RunsSince seq_num sent rto (start_window now) t leaves runs = ground arith
timer_call-RunsSince seq_num sent rto stop_window t leaves runs = runs
timer_call-RunsSince seq_num sent rto (window_expired now) t leaves runs = ground arith
timer_call-RunsSince seq_num sent rto (start_frame now k) t leaves runs = ground arith
timer_call-RunsSince seq_num sent rto (stop_frame k) t leaves runs = ground arith
timer_call-RunsSince seq_num sent rto (frame_expired now k) t leaves runs = ground arith
timer_call-RunsSince seq_num sent rto reset_stats t leaves runs = runs

timer_calls-RunsSince :
    (seq_num sent rto : ℕ) (cs : List TimerCall) (t : Timer)
    → All (LeavesFrame seq_num) cs
    → RunsSince seq_num sent rto t
    → RunsSince seq_num sent rto (timer_calls cs t)
timer_calls-RunsSince seq_num sent rto [] t leaves runs = runs
timer_calls-RunsSince seq_num sent rto (c ∷ cs) t leaves runs =
    timer_calls-RunsSince seq_num sent rto cs (timer_call c t) leaves.1
      (timer_call-RunsSince seq_num sent rto c t leaves.0 runs)

timer_start_frame-RunsSince :
    (seq_num sent : ℕ) (t : Timer)
    → (t.slots seq_num).in_use ≡ false
    → RunsSince seq_num sent t.rto_ns (timer_start_frame sent seq_num t)
unfolding timer_start_frame
timer_start_frame-RunsSince seq_num sent t idle = ground arith

expired-RunsSince :
    (seq_num sent rto now : ℕ) (t : Timer)
    → sent ≤ now
    → now < 2 ^ 64
    → RunsSince seq_num sent rto t
    → ((timer_frame_expired now seq_num t).0 ≡ true) ↔ (sent + rto ≤ now)
unfolding timer_frame_expired
expired-RunsSince seq_num sent rto now t before fits runs = ground arith

-- A timer of one frame, started at time `sent` when it was not in use, has expired at a later time
-- exactly if the timeout has passed since then, whatever calls of the timer module come between,
-- further starts of the same frame included, as long as none of them stops that frame's timer or
-- initialises the module.
pub timer_frame_expired-start_frame :
    (seq_num sent now : ℕ) (cs : List TimerCall) (t : Timer)
    → (t.slots seq_num).in_use ≡ false
    → All (LeavesFrame seq_num) cs
    → sent ≤ now
    → now < 2 ^ 64
    → ((timer_frame_expired now seq_num (timer_calls cs (timer_start_frame sent seq_num t))).0
        ≡ true)
      ↔ (sent + t.rto_ns ≤ now)
timer_frame_expired-start_frame seq_num sent now cs t idle leaves before fits =
    expired-RunsSince seq_num sent t.rto_ns now _ before fits (
      timer_calls-RunsSince seq_num sent t.rto_ns cs _ leaves
        (timer_start_frame-RunsSince seq_num sent t idle))
