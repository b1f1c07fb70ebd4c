-- ===== src/Payment/Guards.antt =====
-- internal/payment/guards.go: the limiter of presentations and the circuit breaker.
pub mod Opening
pub mod Rate
pub mod Examples
use anteroom.Common.{
  ℕ, ◌+◌, ◌-◌, ◌*◌, ◌≤◌, ◌<◌, ◌≡◌, Bool, true, false, Option, none, some, List, [], ◌∷◌, ◌++◌, ltb,
  leb, if◌then◌else◌, ℤ, pos, pos_part, leb_ℤ, Time, Duration, second, length,
}
use anteroom.Common.Text.{Str}
use anteroom.Common.Map.{Map, lookup, insert}

-- Tokens are counted in parts: `unit` parts are one token, so that a nanosecond at one token a
-- minute is one part. The source counts in float64; the parts are the exact values.
abbrev pub unit : ℕ
unit = 60 * second

pub record TokenBucket : Type 0 where
  pub tokens : ℕ
  pub last : Time

-- `rate` is in tokens per minute and `burst` in tokens.
pub record Limiter : Type 0 where
  pub buckets : Map TokenBucket
  pub rate : ℕ
  pub burst : ℕ

abbrev pub max_buckets : ℕ
max_buckets = 8192

-- NewLimiter
unfoldable pub new_limiter : ℤ → ℤ → Limiter
new_limiter per_minute burst =
    let rate : ℕ = if leb_ℤ per_minute (pos 0) then 6 else pos_part per_minute in
    record {
      buckets = [];
      rate = rate;
      burst = if leb_ℤ burst (pos 0) then rate else pos_part burst;
    }

-- The tokens of a bucket at `now`, filled up since `last` and cut at the burst. The clock is
-- monotonic, so that `now` is not before `last`.
unfoldable pub refill : Limiter → TokenBucket → Time → ℕ
refill l b now =
    let filled = b.tokens + (now - b.last) * l.rate in
    if ltb (l.burst * unit) filled then l.burst * unit else filled

unfoldable pub known_client : Limiter → Str → Time → ℕ → Limiter × Bool
known_client l key now tokens =
    if ltb tokens unit
    then (
      record l { buckets = insert key (record { tokens = tokens; last = now }) l.buckets },
      false,
    )
    else (
      record l { buckets = insert key (record { tokens = tokens - unit; last = now }) l.buckets },
      true,
    )

-- Allow
unfoldable pub allow : Limiter → Str → Time → Limiter × Bool
allow l key now = elim (lookup key l.buckets) [
  | none ↦
      let kept : Map TokenBucket = if ltb max_buckets (length l.buckets) then [] else l.buckets in
      (
        record l {
          buckets = insert key (record { tokens = l.burst * unit - unit; last = now }) kept;
        },
        true,
      )
  | some b ↦ known_client l key now (refill l b now)
]

pub record Breaker : Type 0 where
  pub failures : List Time
  pub open_until : Time
  pub threshold : ℕ
  pub window : Duration
  pub cooldown : Duration

-- NewBreaker. The zero time is before every instant of the clock.
unfoldable pub new_breaker : ℤ → ℤ → ℤ → Breaker
new_breaker threshold window cooldown = record {
  failures = [];
  open_until = 0;
  threshold = if leb_ℤ threshold (pos 0) then 3 else pos_part threshold;
  window = if leb_ℤ window (pos 0) then 30 * second else pos_part window;
  cooldown = if leb_ℤ cooldown (pos 0) then 30 * second else pos_part cooldown;
}

-- Open
unfoldable pub is_open : Breaker → Time → Bool
is_open b now = ltb now b.open_until

-- RetryAfter
unfoldable pub retry_after : Breaker → Time → Duration
retry_after b now = b.open_until - now

-- The failures that are after `now - window`.
unfoldable pub recent : Duration → Time → List Time → List Time
recent window now [] = []
recent window now (t ∷ ts) =
    let rest = recent window now ts in if ltb now (t + window) then t ∷ rest else rest

-- Fail
unfoldable pub fail : Breaker → Time → Breaker × Bool
fail b now =
    if ltb now b.open_until
    then (b, false)
    else let failures = recent b.window now b.failures ++ now ∷ [] in
      if leb b.threshold (length failures)
      then (record b { failures = []; open_until = now + b.cooldown }, true)
      else (record b { failures = failures }, false)

-- Succeed
unfoldable pub succeed : Breaker → Breaker
succeed b = record b { failures = []; open_until = 0 }
