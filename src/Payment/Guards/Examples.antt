-- ===== src/Payment/Guards/Examples.antt =====
-- Tests of the guards, and their theorems at concrete histories.
use anteroom.Common.{◌+◌, ◌*◌, ◌≤◌, ◌≡◌, refl, inr, List, [], ◌∷◌, arith, second, pos, Time}
use anteroom.Common.Text.{text, str_eq}
use anteroom.Common.Map.{lookup, insert}
use anteroom.Payment.Guards.{unit, refill, known_client, allow, new_limiter, Breaker, new_breaker}
use anteroom.Payment.Guards.Rate.{granted, duration, AllRoom, granted-le-rate, Calls}

abbrev gate_breaker : Breaker
gate_breaker = record {
  failures = [];
  open_until = 0;
  threshold = 3;
  window = 30 * second;
  cooldown = 30 * second;
}

gate_breaker_built : new_breaker (pos 3) (pos (30 * second)) (pos 0) ≡ gate_breaker
unfolding new_breaker
gate_breaker_built = refl

abbrev two_failures : List Time
two_failures = 100 * second ∷ 110 * second ∷ []

-- Six presentations a minute: three at once are let through, the fourth waits.
abbrev hasty : Calls
hasty = (0, text "a") ∷ (0, text "a") ∷ (0, text "a") ∷ []

hasty-granted : granted (text "a") (new_limiter (pos 6) (pos 2)) second hasty ≡ 2
unfolding granted new_limiter allow known_client refill lookup insert text str_eq
hasty-granted = refl

hasty-AllRoom : AllRoom (new_limiter (pos 6) (pos 2)) second hasty
unfolding AllRoom new_limiter allow known_client refill lookup insert text str_eq
hasty-AllRoom = (inr (omega arith), (inr (omega arith), (inr (omega arith), tt)))

granted-le-rate_example :
    granted (text "a") (new_limiter (pos 6) (pos 2)) second hasty * unit
    ≤ (new_limiter (pos 6) (pos 2)).burst * unit
      + duration hasty * (new_limiter (pos 6) (pos 2)).rate
granted-le-rate_example = granted-le-rate (text "a") (pos 6) (pos 2) second hasty hasty-AllRoom
