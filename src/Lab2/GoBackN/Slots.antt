-- ===== src/Lab2/GoBackN/Slots.antt =====
-- lab2/arq/sender.c, Go-Back-N: the slots of `frame_store`.
use network_lab.Prelude.{
  ℕ, zero, suc, ◌+◌, ◌-◌, ◌%◌, ◌^◌, ◌≤◌, ◌<◌, ◌≡◌, sym, ap, ◌∙◌, u16, arith, ==_iff, ◌<<<◌,
}
use native.Mathlib.Nat.{add-mod_right}
use network_lab.Lab2.Arq.{eot_frame}
use network_lab.Lab2.GoBackN.Sender.{Sender, start, send_new, send_eot}

two_pow_bounds : (w : ℕ) → 1 ≤ w → w ≤ 8 → (2 ≤ 2 ^ w) × (2 ^ w ≤ 256)
two_pow_bounds zero lo hi = absurd (omega arith)
two_pow_bounds (suc zero) lo hi = omega arith
two_pow_bounds (suc (suc zero)) lo hi = omega arith
two_pow_bounds (suc (suc (suc zero))) lo hi = omega arith
two_pow_bounds (suc (suc (suc (suc zero)))) lo hi = omega arith
two_pow_bounds (suc (suc (suc (suc (suc zero))))) lo hi = omega arith
two_pow_bounds (suc (suc (suc (suc (suc (suc zero)))))) lo hi = omega arith
two_pow_bounds (suc (suc (suc (suc (suc (suc (suc zero))))))) lo hi = omega arith
two_pow_bounds (suc (suc (suc (suc (suc (suc (suc (suc zero)))))))) lo hi = omega arith
two_pow_bounds (suc (suc (suc (suc (suc (suc (suc (suc (suc w))))))))) lo hi = absurd (omega arith)

-- For window sizes from 1 to 8 the window is 2 ^ m - 1 frames, which is at least one and fits into the
-- array.
pub start-sw :
    (window_size : ℕ)
    → 1 ≤ window_size
    → window_size ≤ 8
    → ((start window_size).sw ≡ 2 ^ window_size - 1)
      × (0 < (start window_size).sw)
      × ((start window_size).sw < 256)
unfolding start
start-sw w lo hi = (size, omega (arith, size, bounds), omega (arith, size, bounds))
  where
    bounds : (2 ≤ 2 ^ w) × (2 ^ w ≤ 256)
    bounds = two_pow_bounds w lo hi

    size : u16 (1 <<< w - 1) ≡ 2 ^ w - 1
    size = omega (arith, bounds)

pub slot-wraps : (sf sw sn : ℕ) → sn ≡ sf + sw → sn % sw ≡ sf % sw
slot-wraps sf sw sn e = ap (λ k. k % sw) e ∙ add-mod_right sf sw

-- When the end-of-transmission frame goes out with the window full, it takes the slot of the
-- oldest frame that is not acknowledged.
pub send_eot-slot :
    (s : Sender) → s.sn ≡ s.sf + s.sw → (send_eot s).0.frame_store (s.sf % s.sw) ≡ eot_frame s.sn
unfolding send_eot send_new
send_eot-slot s full = rw ((==_iff _ _).1 (sym (slot-wraps s.sf s.sw s.sn full)))
