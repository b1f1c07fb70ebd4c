-- ===== src/Payment/Guards/Opening.antt =====
-- The circuit breaker: when it opens, how long, and what closes it.
use mathlib.Core.List.{append-nil, append_assoc}
use anteroom.Common.{
  ◌∙◌, All-append, ◌+◌, ◌≤◌, ◌<◌, ◌≡◌, refl, ◌↔◌, true, false, List, [], ◌∷◌, ◌++◌, arith, ltb, leb,
  Time, Duration, length, length-append, All, ap,
}
use anteroom.Payment.Guards.{Breaker, is_open, retry_after, recent, fail}

-- Fail opens the breaker exactly when it is closed and the recent failures with this one reach the
-- threshold. It is then open until the cooldown is over and has forgotten the failures.
pub fail-opens_iff :
    (b : Breaker) (now : Time)
    → (((fail b now).1 ≡ true)
        ↔ ((b.open_until ≤ now) × (b.threshold ≤ length (recent b.window now b.failures) + 1)))
      × ((fail b now).1 ≡ true
          → ((t : Time) → is_open (fail b now).0 t ≡ ltb t (now + b.cooldown))
            × ((fail b now).0.failures ≡ []))
unfolding fail is_open
fail-opens_iff b now = (
  (
    λ h. ground (arith, length-append (recent b.window now b.failures) (now ∷ [])),
    λ h. ground (arith, length-append (recent b.window now b.failures) (now ∷ [])),
  ),
  λ h. (λ t. ground arith, ground arith),
)

-- RetryAfter is positive exactly while the breaker is open, and the breaker is closed once the
-- client has waited that long.
pub retry_after_exact :
    (b : Breaker) (now : Time)
    → (is_open b now ≡ ltb 0 (retry_after b now)) × (is_open b (now + retry_after b now) ≡ false)
unfolding is_open retry_after
retry_after_exact b now = (ground arith, ground arith)

length-recent : (w : Duration) (now : Time) (ts : List Time) → length (recent w now ts) ≤ length ts
unfolding recent
length-recent w now [] = omega arith
length-recent w now (t ∷ ts) = ground (arith, length-recent w now ts)

-- It remembers fewer failures than its threshold.
abbrev pub IsCounting : Breaker → Type 0
IsCounting b = length b.failures < b.threshold

-- A breaker that remembers fewer failures than its threshold still does so after a failure.
pub fail-IsCounting : (b : Breaker) (now : Time) → IsCounting b → IsCounting (fail b now).0
unfolding fail
fail-IsCounting b now h = ground (arith, length-append (recent b.window now b.failures) (now ∷ []))

recent-all :
    (w : Duration) (now : Time) (ts : List Time) → All (λ t. now < t + w) ts → recent w now ts ≡ ts
unfolding recent
recent-all w now [] h = refl
recent-all w now (t ∷ ts) h = ground (arith, recent-all w now ts h.1)

-- The calls of Fail at the given instants, in order.
pub fail_all : Breaker → List Time → Breaker
fail_all b [] = b
fail_all b (t ∷ ts) = fail_all (fail b t).0 ts

-- An instant of the window that begins at `base`.
abbrev pub InWindow : Time → Duration → Time → Type 0
InWindow base w t = (base ≤ t) × (t < base + w)

still_recent :
    (base : Time) (w : Duration) (now : Time) (ts : List Time)
    → InWindow base w now
    → All (InWindow base w) ts
    → All (λ t. now < t + w) ts
still_recent base w now [] h all = tt
still_recent base w now (t ∷ ts) h all = (omega arith, still_recent base w now ts h all.1)

-- One more failure below the threshold is remembered.
fail-counts :
    (b : Breaker) (base now : Time)
    → b.open_until ≤ base
    → InWindow base b.window now
    → All (InWindow base b.window) b.failures
    → length b.failures + 1 < b.threshold
    → fail b now ≡ (record b { failures = b.failures ++ now ∷ [] }, false)
unfolding fail
fail-counts b base now closed h all few = ground (
  arith,
  recent-all b.window now b.failures (still_recent base b.window now b.failures h all),
  length-append b.failures (now ∷ []),
)

fail_all-counts :
    (b : Breaker) (base : Time) (ts : List Time)
    → b.open_until ≤ base
    → All (InWindow base b.window) b.failures
    → All (InWindow base b.window) ts
    → length b.failures + length ts < b.threshold
    → fail_all b ts ≡ record b { failures = b.failures ++ ts }
unfolding fail_all
fail_all-counts b base [] closed old new few = rw (append-nil b.failures)
fail_all-counts b base (t ∷ ts) closed old new few =
    let c : Breaker = record b { failures = b.failures ++ t ∷ [] } in
    rw (fail-counts b base t closed new.0 old (omega arith)) (
      fail_all-counts c base ts closed
        (All-append (InWindow base b.window) b.failures (t ∷ []) old (new.0, tt)) new.1
        (omega (arith, length-append b.failures (t ∷ [])))
      ∙ ap (λ (fs : List Time). record b { failures = fs }) (append_assoc b.failures (t ∷ []) ts))

-- A breaker that is closed and remembers no failure stays closed through the failures of one window,
-- and the next failure of that window opens it exactly when it is the one that reaches the threshold.
pub window_opens :
    (b : Breaker) (base : Time) (ts : List Time) (t : Time)
    → b.failures ≡ []
    → b.open_until ≤ base
    → All (InWindow base b.window) ts
    → InWindow base b.window t
    → length ts < b.threshold
    → (is_open (fail_all b ts) t ≡ false)
      × ((fail (fail_all b ts) t).1 ≡ leb b.threshold (length ts + 1))
unfolding is_open fail
window_opens b base ts t none_yet closed all here few =
    let counted =
      fail_all-counts b base ts closed (rw none_yet tt) all (rw none_yet (omega arith)) in
    (
      rw counted (ground arith),
      rw (counted, fail, none_yet)
          (ground (
            arith,
            recent-all b.window t ts (still_recent base b.window t ts here all),
            length-append ts (t ∷ []),
          )),
    )
