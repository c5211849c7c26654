-- ===== src/Lab2/Timer/Tests.antt =====
-- Runs of the timers.
use network_lab.Prelude.{◌≤◌, ◌≡◌, ◌↔◌, refl, true, false, [], ◌∷◌, arith}
use network_lab.Lab2.Timer.{
  Timer, zero_slot, timer_start_frame, timer_frame_expired, start_frame, stop_frame, start_window,
  window_expired, timer_start_window, timer_window_expired,
}
use network_lab.Lab2.Timer.Expiry.{timer_calls, timer_frame_expired-start_frame}
use network_lab.Lab2.Timer.Window.{timer_window_expired-start_window}

abbrev fresh : Timer
fresh = record {
  rto_ns = 500;
  stats = record {
    windows_started = 0;
    windows_expired = 0;
    frames_started = 0;
    frames_expired = 0;
  };
  window_start_time = 0;
  window_running = false;
  slots = (λ k. zero_slot);
}

-- Another frame's timer starts and stops, and frame 3 is started again.
timer_frame_expired-start_frame_example :
    ((timer_frame_expired 700 3 (
        timer_calls
          (start_frame 150 4 ∷ (stop_frame 4 ∷ (start_frame 300 3 ∷ [])))
          (timer_start_frame 100 3 fresh))).0
      ≡ true)
    ↔ (600 ≤ 700)
timer_frame_expired-start_frame_example =
    timer_frame_expired-start_frame 3 100 700
      (start_frame 150 4 ∷ (stop_frame 4 ∷ (start_frame 300 3 ∷ []))) fresh refl
      (tt, (ground arith, (tt, tt))) (omega arith) (omega arith)

timer_window_expired-start_window_example :
    ((timer_window_expired 550 (
        timer_calls
          (start_window 200 ∷ (window_expired 300 ∷ []))
          (timer_start_window 100 fresh))).0
      ≡ true)
    ↔ (600 ≤ 550)
timer_window_expired-start_window_example =
    timer_window_expired-start_window 100 550 (start_window 200 ∷ (window_expired 300 ∷ [])) fresh
      refl (tt, (tt, tt)) (omega arith) (omega arith)
