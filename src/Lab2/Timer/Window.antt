-- ===== src/Lab2/Timer/Window.antt =====
-- lab2/timer.c: the window timer keeps the time of its first start.
use network_lab.Prelude.{ℕ, ◌+◌, ◌^◌, ◌≤◌, ◌<◌, ◌≡◌, ◌↔◌, true, false, List, [], ◌∷◌, arith, All}
use network_lab.Lab2.Timer.{
  Timer, TimerCall, start_window, stop_window, window_expired, start_frame, stop_frame,
  frame_expired, reset_stats, timer_call, timer_start_window, timer_stop_window,
  timer_window_expired, timer_start_frame, timer_stop_frame, timer_frame_expired, timer_reset_stats,
}
use network_lab.Lab2.Timer.Expiry.{timer_calls}

abbrev pub LeavesWindow : TimerCall → Type 0
LeavesWindow (start_window now) = Unit
LeavesWindow stop_window = ⊥
LeavesWindow (window_expired now) = Unit
LeavesWindow (start_frame now k) = Unit
LeavesWindow (stop_frame k) = Unit
LeavesWindow (frame_expired now k) = Unit
LeavesWindow reset_stats = Unit

-- The window timer runs since `began`, with the timeout `rto`.
abbrev RunsSince : ℕ → ℕ → Timer → Type 0
RunsSince began rto t = (t.window_running ≡ true) × (t.window_start_time ≡ began) × (t.rto_ns ≡ rto)

timer_call-RunsSince :
    (began rto : ℕ) (c : TimerCall) (t : Timer)
    → LeavesWindow c
    → RunsSince began rto t
    → RunsSince began rto (timer_call c t)
unfolding timer_call timer_start_window timer_stop_window timer_window_expired timer_start_frame
    timer_stop_frame timer_frame_expired timer_reset_stats
timer_call-RunsSince began rto (start_window now) t leaves runs = ground arith
timer_call-RunsSince began rto stop_window t leaves runs = absurd leaves
timer_call-RunsSince began rto (window_expired now) t leaves runs = ground arith
timer_call-RunsSince began rto (start_frame now k) t leaves runs = ground arith
timer_call-RunsSince began rto (stop_frame k) t leaves runs = ground arith
timer_call-RunsSince began rto (frame_expired now k) t leaves runs = ground arith
timer_call-RunsSince began rto reset_stats t leaves runs = runs

timer_calls-RunsSince :
    (began rto : ℕ) (cs : List TimerCall) (t : Timer)
    → All LeavesWindow cs
    → RunsSince began rto t
    → RunsSince began rto (timer_calls cs t)
timer_calls-RunsSince began rto [] t leaves runs = runs
timer_calls-RunsSince began rto (c ∷ cs) t leaves runs =
    timer_calls-RunsSince began rto cs (timer_call c t) leaves.1
      (timer_call-RunsSince began rto c t leaves.0 runs)

timer_start_window-RunsSince :
    (began : ℕ) (t : Timer)
    → t.window_running ≡ false
    → RunsSince began t.rto_ns (timer_start_window began t)
unfolding timer_start_window
timer_start_window-RunsSince began t idle = ground arith

expired-RunsSince :
    (began rto now : ℕ) (t : Timer)
    → began ≤ now
    → now < 2 ^ 64
    → RunsSince began rto t
    → ((timer_window_expired now t).0 ≡ true) ↔ (began + rto ≤ now)
unfolding timer_window_expired
expired-RunsSince began rto now t before fits runs = ground arith

-- The window timer, started at time `began` when it was not running, has expired at a later time
-- exactly if the timeout has passed since then, whatever calls of the timer module come between,
-- further starts of the window timer included, as long as none of them stops the window timer or
-- initialises the module.
pub timer_window_expired-start_window :
    (began now : ℕ) (cs : List TimerCall) (t : Timer)
    → t.window_running ≡ false
    → All LeavesWindow cs
    → began ≤ now
    → now < 2 ^ 64
    → ((timer_window_expired now (timer_calls cs (timer_start_window began t))).0 ≡ true)
      ↔ (began + t.rto_ns ≤ now)
timer_window_expired-start_window began now cs t idle leaves before fits =
    expired-RunsSince began t.rto_ns now _ before fits
      (timer_calls-RunsSince began t.rto_ns cs _ leaves (timer_start_window-RunsSince began t idle))
