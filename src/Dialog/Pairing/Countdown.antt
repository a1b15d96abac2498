-- ===== src/Dialog/Pairing/Countdown.antt =====
-- The countdown of frontend/src/components/DevicePairingModal.tsx ends.
use kypassword_server.Base.{ℕ, zero, suc, ◌-◌, ◌≤◌, false, ◌≡◌, ◌↔◌, arith}
use kypassword_server.Dialog.Pairing.{Pairing, fetch_pairing_code, has_timer, tick, run_timer}

-- The seconds left after `n` seconds of the timer.
run_timer-seconds_remaining :
    (n : ℕ) (s : Pairing) → (run_timer n s).seconds_remaining ≡ s.seconds_remaining - n
unfolding run_timer tick has_timer
run_timer-seconds_remaining zero s = omega arith
run_timer-seconds_remaining (suc n) s = ground (arith, run_timer-seconds_remaining n (tick s))

-- The countdown that a new pairing code starts ends: the timer is stopped after 90 of its seconds or more,
-- and not before.
pub fetch_pairing_code-Ends :
    (s : Pairing) (n : ℕ) → (has_timer (run_timer n (fetch_pairing_code s)) ≡ false) ↔ (90 ≤ n)
unfolding fetch_pairing_code has_timer
fetch_pairing_code-Ends s n = ground (arith, run_timer-seconds_remaining n (fetch_pairing_code s))
