-- ===== src/Lab2/Arq/Calls.antt =====
-- What the calls of a sender put into the channel.
use network_lab.Prelude.{ℕ, ◌≡◌, refl, ap, List, [], ◌∷◌, ◌++◌}
use network_lab.Lab2.Arq.{
  Call, mark_send_time, channel_send, timer_start_window, timer_stop_window, record_rtt,
}

-- The bytes that a row of calls hands to `channel_send`.
unfoldable pub sends : List Call → List (List ℕ)
sends [] = []
sends (mark_send_time q ∷ cs) = sends cs
sends (channel_send b ∷ cs) = b ∷ sends cs
sends (timer_start_window ∷ cs) = sends cs
sends (timer_stop_window ∷ cs) = sends cs
sends (record_rtt q ∷ cs) = sends cs

pub sends-append : (xs ys : List Call) → sends (xs ++ ys) ≡ sends xs ++ sends ys
unfolding sends
sends-append [] ys = refl
sends-append (mark_send_time q ∷ xs) ys = sends-append xs ys
sends-append (channel_send b ∷ xs) ys = ap (λ r. b ∷ r) (sends-append xs ys)
sends-append (timer_start_window ∷ xs) ys = sends-append xs ys
sends-append (timer_stop_window ∷ xs) ys = sends-append xs ys
sends-append (record_rtt q ∷ xs) ys = sends-append xs ys
