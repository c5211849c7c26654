-- ===== src/Lab2/Timer.antt =====
-- lab2/timer.c: the window timer and the timers of single frames. The clock is an argument of the
-- operations that read it, and the configured timeout is the number of nanoseconds to which the
-- code converts it.
pub mod Expiry
pub mod Window
mod Tests
use network_lab.Prelude.{u64, ℕ, ◌+◌, ◌-◌, ◌%◌, ◌^◌, Bool, true, false, ◌==◌, leb, if◌then◌else◌}

pub record TimerSlot : Type 0 where
  pub in_use : Bool
  pub send_time_ns : ℕ
  pub seq_num : ℕ

-- The four counters of `timer_stats`, each a `uint64_t`.
pub record TimerStats : Type 0 where
  pub windows_started : ℕ
  pub windows_expired : ℕ
  pub frames_started : ℕ
  pub frames_expired : ℕ

-- The static variables of the module.
pub record Timer : Type 0 where
  pub rto_ns : ℕ
  pub stats : TimerStats
  pub window_start_time : ℕ
  pub window_running : Bool
  pub slots : ℕ → TimerSlot

abbrev pub zero_slot : TimerSlot
zero_slot = record { in_use = false; send_time_ns = 0; seq_num = 0 }

abbrev pub set_slot : (ℕ → TimerSlot) → ℕ → TimerSlot → ℕ → TimerSlot
set_slot slots seq_num slot k = if k == seq_num then slot else slots k

-- The statistics are not cleared.
unfoldable pub timer_init : ℕ → Timer → Timer
timer_init rto_ns t = record t {
  rto_ns = rto_ns;
  slots = (λ k. zero_slot);
  window_running = false;
  window_start_time = 0;
}

unfoldable pub timer_start_window : ℕ → Timer → Timer
timer_start_window now t = if t.window_running then t else record t {
  window_start_time = now;
  window_running = true;
  stats = record (t.stats) { windows_started = u64 (t.stats.windows_started + 1) };
}

unfoldable pub timer_stop_window : Timer → Timer
timer_stop_window t = record t { window_running = false }

-- `now_ns - start` in unsigned 64-bit arithmetic
abbrev pub elapsed_ns : ℕ → ℕ → ℕ
elapsed_ns now start = u64 (now + 2 ^ 64 - start)

unfoldable pub timer_window_expired : ℕ → Timer → Bool × Timer
timer_window_expired now t =
    if t.window_running
    then (if leb t.rto_ns (elapsed_ns now t.window_start_time)
        then (
          true,
          record t {
            stats = record (t.stats) { windows_expired = u64 (t.stats.windows_expired + 1) };
          },
        )
        else (false, t))
    else (false, t)

unfoldable pub timer_start_frame : ℕ → ℕ → Timer → Timer
timer_start_frame now seq_num t = if (t.slots seq_num).in_use then t else record t {
  slots =
      set_slot t.slots seq_num (record { in_use = true; send_time_ns = now; seq_num = seq_num });
  stats = record (t.stats) { frames_started = u64 (t.stats.frames_started + 1) };
}

unfoldable pub timer_stop_frame : ℕ → Timer → Timer
timer_stop_frame seq_num t =
    if (t.slots seq_num).in_use
    then record t { slots = set_slot t.slots seq_num (record (t.slots seq_num) { in_use = false }) }
    else t

unfoldable pub timer_frame_expired : ℕ → ℕ → Timer → Bool × Timer
timer_frame_expired now seq_num t =
    if (t.slots seq_num).in_use
    then (if leb t.rto_ns (elapsed_ns now (t.slots seq_num).send_time_ns)
        then (
          true,
          record t {
            stats = record (t.stats) { frames_expired = u64 (t.stats.frames_expired + 1) };
          },
        )
        else (false, t))
    else (false, t)

unfoldable pub timer_reset_stats : Timer → Timer
timer_reset_stats t = record t {
  stats = record {
    windows_started = 0;
    windows_expired = 0;
    frames_started = 0;
    frames_expired = 0;
  };
}

-- Calls of the module between two looks at a timer, each with the time at which it reads the clock.
pub data TimerCall : Type 0 where
  start_window : ℕ → TimerCall
  stop_window : TimerCall
  window_expired : ℕ → TimerCall
  start_frame : ℕ → ℕ → TimerCall
  stop_frame : ℕ → TimerCall
  frame_expired : ℕ → ℕ → TimerCall
  reset_stats : TimerCall

unfoldable pub timer_call : TimerCall → Timer → Timer
timer_call (start_window now) t = timer_start_window now t
timer_call stop_window t = timer_stop_window t
timer_call (window_expired now) t = (timer_window_expired now t).1
timer_call (start_frame now seq_num) t = timer_start_frame now seq_num t
timer_call (stop_frame seq_num) t = timer_stop_frame seq_num t
timer_call (frame_expired now seq_num) t = (timer_frame_expired now seq_num t).1
timer_call reset_stats t = timer_reset_stats t
