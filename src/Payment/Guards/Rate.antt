-- ===== src/Payment/Guards/Rate.antt =====
-- The limiter: how many presentations one client can make over any stretch of time.
use anteroom.Common.{
  ℕ, ◌+◌, ◌-◌, ◌*◌, ◌≤◌, ◌≡◌, refl, Bool, ◌&&◌, none, some, List, [], ◌∷◌, arith, Time, Duration,
  length, if◌then◌else◌, ◌⊎◌, inl, inr, ℤ, Option-cases,
}
use anteroom.Common.Text.{Str, str_eq, str_eq_iff}
use anteroom.Common.Map.{lookup, insert, lookup-insert}
use anteroom.Payment.Guards.{
  TokenBucket, Limiter, unit, max_buckets, refill, known_client, allow, new_limiter,
}

-- The tokens that a client could spend at `now`; a client without a bucket has the whole burst.
unfoldable pub level : Limiter → Str → Time → ℕ
level l key now = elim (lookup key l.buckets) [ none ↦ l.burst * unit | some b ↦ refill l b now ]

-- The call does not throw the buckets away.
abbrev pub HasRoom : Limiter → Str → Type 0
HasRoom l key =
    ((b : TokenBucket) × (lookup key l.buckets ≡ some b)) ⊎ (length l.buckets ≤ max_buckets)

-- The client's bucket was last filled no later than `now`.
pub Filled : Limiter → Str → Time → Type 0
Filled l key now = (b : TokenBucket) → lookup key l.buckets ≡ some b → b.last ≤ now

pub allow-config :
    (l : Limiter) (j : Str) (now : Time)
    → ((allow l j now).0.rate ≡ l.rate) × ((allow l j now).0.burst ≡ l.burst)
unfolding allow known_client
allow-config l j now = ground arith

abbrev one_if : Bool → ℕ
one_if b = if b then 1 else 0

no_gain : (now r : ℕ) → (now - now) * r ≡ 0
no_gain now r = grind arith

-- The level after the bucket of `j` is written.
level-insert :
    (l : Limiter) (k j : Str) (n : ℕ) (now : Time)
    → n ≤ l.burst * unit
    → level (record l { buckets = insert j (record { tokens = n; last = now }) l.buckets }) k now
      ≡ (if str_eq j k then n else level l k now)
unfolding level refill
level-insert l k j n now h =
    ground
      (arith, lookup-insert j k (record { tokens = n; last = now }) l.buckets, no_gain now l.rate)

level-none :
    (l : Limiter) (k : Str) (now : Time)
    → lookup k l.buckets ≡ none
    → level l k now ≡ l.burst * unit
unfolding level
level-none l k now e = ground arith

level-some :
    (l : Limiter) (k : Str) (now : Time) (b : TokenBucket)
    → lookup k l.buckets ≡ some b
    → level l k now ≡ refill l b now
unfolding level
level-some l k now b e = ground arith

refill-le : (l : Limiter) (b : TokenBucket) (now : Time) → refill l b now ≤ l.burst * unit
unfolding refill
refill-le l b now = ground arith

level-allow_new :
    (l : Limiter) (k j : Str) (now : Time)
    → 1 ≤ l.burst
    → lookup j l.buckets ≡ none
    → length l.buckets ≤ max_buckets
    → level (allow l j now).0 k now + one_if ((allow l j now).1 && str_eq j k) * unit
      ≡ level l k now
unfolding allow
level-allow_new l k j now h e room =
    rw (e, allow)
      (ground (
        arith,
        level-insert l k j (l.burst * unit - unit) now (omega arith),
        str_eq_iff j k,
        level-none l j now e,
      ))

level-allow_known :
    (l : Limiter) (k j : Str) (now : Time) (b : TokenBucket)
    → lookup j l.buckets ≡ some b
    → level (allow l j now).0 k now + one_if ((allow l j now).1 && str_eq j k) * unit
      ≡ level l k now
unfolding allow known_client
level-allow_known l k j now b e =
    let cap = refill-le l b now in
    rw (e, allow)
      (ground (
        arith,
        level-insert l k j (refill l b now) now (omega arith),
        level-insert l k j (refill l b now - unit) now (omega arith),
        str_eq_iff j k,
        level-some l j now b e,
      ))

-- A call takes one token from its client if it is allowed, and nothing from any other client.
level-allow :
    (l : Limiter) (k j : Str) (now : Time)
    → 1 ≤ l.burst
    → HasRoom l j
    → level (allow l j now).0 k now + one_if ((allow l j now).1 && str_eq j k) * unit
      ≡ level l k now
level-allow l k j now h (inl (b, e)) = level-allow_known l k j now b e
level-allow l k j now h (inr room) = elim (Option-cases (lookup j l.buckets)) [
  | inl e ↦ level-allow_new l k j now h e room
  | inr (b, e) ↦ level-allow_known l k j now b e
]

gain : (now last d r : ℕ) → last ≤ now → (now + d - last) * r ≡ (now - last) * r + d * r
gain now last d r h = let e : now + d - last ≡ (now - last) + d = omega arith in rw e (omega arith)

-- Waiting adds tokens at the configured rate, at most.
level-wait :
    (l : Limiter) (k : Str) (now d : ℕ)
    → Filled l k now
    → level l k (now + d) ≤ level l k now + d * l.rate
unfolding level refill Filled
level-wait l k now d f = elim (Option-cases (lookup k l.buckets)) [
  | inl e ↦ ground arith
  | inr (b, e) ↦ let g = gain now b.last d l.rate (f b e) in ground (arith, e, g)
]

Filled-allow :
    (l : Limiter) (k j : Str) (now : Time)
    → HasRoom l j
    → Filled l k now
    → Filled (allow l j now).0 k now
unfolding Filled allow known_client lookup
Filled-allow l k j now room f b e = elim (Option-cases (lookup j l.buckets)) [
  | inl none_yet ↦ ground (
    arith,
    none_yet,
    lookup-insert j k (record { tokens = l.burst * unit - unit; last = now }) l.buckets,
    lookup-insert {V = TokenBucket} j k (record { tokens = l.burst * unit - unit; last = now }) [],
    f b,
  )
  | inr (c, held) ↦
      let n = refill l c now in
      ground (
        arith,
        held,
        lookup-insert j k (record { tokens = n; last = now }) l.buckets,
        lookup-insert j k (record { tokens = n - unit; last = now }) l.buckets,
        f b,
      )
]

Filled-wait : (l : Limiter) (k : Str) (now d : ℕ) → Filled l k now → Filled l k (now + d)
unfolding Filled
Filled-wait l k now d f b e = omega (arith, f b e)

-- Calls of Allow: how long after the one before, and for which client.
abbrev pub Calls : Type 0
Calls = List (Duration × Str)

-- The presentations of client `k` that are let through.
unfoldable pub granted : Str → Limiter → Time → Calls → ℕ
granted k l now [] = 0
granted k l now ((d, j) ∷ cs) =
    let called = allow l j (now + d) in
    one_if (called.1 && str_eq j k) + granted k called.0 (now + d) cs

unfoldable pub duration : Calls → Duration
duration [] = 0
duration ((d, j) ∷ cs) = d + duration cs

unfoldable pub AllRoom : Limiter → Time → Calls → Type 0
AllRoom l now [] = Unit
AllRoom l now ((d, j) ∷ cs) = HasRoom l j × AllRoom (allow l j (now + d)).0 (now + d) cs

granted-le :
    (k : Str) (l : Limiter) (now : Time) (cs : Calls)
    → 1 ≤ l.burst
    → AllRoom l now cs
    → Filled l k now
    → granted k l now cs * unit ≤ level l k now + duration cs * l.rate
unfolding granted duration AllRoom
granted-le k l now [] h room f = omega arith
granted-le k l now ((d, j) ∷ cs) h room f =
    let called = allow l j (now + d) in
    let config = allow-config l j (now + d) in
    let here = level-allow l k j (now + d) h room.0 in
    let waited = level-wait l k now d f in
    let rest =
      granted-le k called.0 (now + d) cs (rw config.1 h) room.1
        (Filled-allow l k j (now + d) room.0 (Filled-wait l k now d f)) in
    let rest' = rw config.0 at rest in omega (arith, here, waited, rest')

new_limiter-fresh :
    (k : Str) (per_minute burst : ℤ) (now : Time)
    → (1 ≤ (new_limiter per_minute burst).burst)
      × Filled (new_limiter per_minute burst) k now
      × (level (new_limiter per_minute burst) k now ≡ (new_limiter per_minute burst).burst * unit)
unfolding new_limiter Filled level lookup
new_limiter-fresh k per_minute burst now = (ground arith, λ b e. cc, refl)

-- A fresh limiter lets through, over any stretch of time in which it never throws its buckets away,
-- at most the burst and what the rate adds in that time: granted · unit ≤ burst · unit + time · rate,
-- for each client, whatever the other clients do.
pub granted-le-rate :
    (k : Str) (per_minute burst : ℤ) (now : Time) (cs : Calls)
    → AllRoom (new_limiter per_minute burst) now cs
    → granted k (new_limiter per_minute burst) now cs * unit
      ≤ (new_limiter per_minute burst).burst * unit
        + duration cs * (new_limiter per_minute burst).rate
granted-le-rate k per_minute burst now cs room =
    let (some_burst, filled, full) = new_limiter-fresh k per_minute burst now in
    omega (arith, granted-le k (new_limiter per_minute burst) now cs some_burst room filled, full)
