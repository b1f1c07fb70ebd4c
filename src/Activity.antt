-- ===== src/Activity.antt =====
-- internal/activity/activity.go: the bounded log of challenge activity per client address. The clock
-- is an argument; a nil log, which records nothing, is the caller's `none`.
pub mod Bounds
pub mod Counts
pub mod Snapshots
pub mod Examples
use anteroom.Common.{
  ℕ, suc, ◌+◌, ◌-◌, ◌*◌, ◌≡◌, Bool, true, false, ◌&&◌, ◌||◌, not, Option, none, some, List, [], ◌∷◌,
  ltb, leb, ◌==◌, if◌then◌else◌, length, Time, Duration, second, ℤ, pos, negsuc,
}
use anteroom.Common.Text.{Str, is_empty, str_eq}
use anteroom.Common.Map.{Map, lookup, insert, remove}

pub record Entry : Type 0 where
  pub first_seen : Time
  pub last_seen : Time
  pub failed : ℕ
  pub admits : ℕ
  pub renews : ℕ

pub record Log : Type 0 where
  pub entries : Map Entry
  pub ttl : Duration
  pub cap : ℕ

-- New
unfoldable pub new : ℤ → ℤ → Log
new ttl max_ips = record {
  entries = [];
  ttl = elim ttl [ pos (suc n) ↦ suc n | _ ↦ 600 * second ];
  cap = elim max_ips [ pos (suc n) ↦ suc n | _ ↦ 8192 ];
}

-- now.Sub(e.lastSeen) > l.ttl, where a clock behind last_seen gives no expiry.
unfoldable pub is_expired : Duration → Time → Entry → Bool
is_expired ttl now e = ltb ttl (now - e.last_seen)

-- The loops that delete expired entries.
unfoldable pub prune : Duration → Time → Map Entry → Map Entry
unfolding is_expired
prune ttl now [] = []
prune ttl now ((ip, e) ∷ es) =
    let rest = prune ttl now es in if is_expired ttl now e then rest else (ip, e) ∷ rest

-- The body of the search for the quietest survivor, with the best one so far.
unfoldable pub quieter : Duration → Time → Str × Time → Str × Entry → Str × Time
unfolding is_expired
quieter ttl now (oldest, at) (ip, e) =
    if is_expired ttl now e
    then (oldest, at)
    else if is_empty oldest || ltb e.last_seen at
    then (ip, e.last_seen)
    else (oldest, at)

unfoldable pub quietest : Duration → Time → Str × Time → Map Entry → Str × Time
quietest ttl now best [] = best
quietest ttl now best (x ∷ es) = quietest ttl now (quieter ttl now best x) es

-- makeRoom
unfoldable pub make_room : Time → Log → Map Entry
make_room now l =
    let kept = prune l.ttl now l.entries in
    let best = quietest l.ttl now ([], 0) l.entries in
    if leb l.cap (length kept) && not (is_empty best.0) then remove best.0 kept else kept

pub data Outcome : Type 0 where
  failure admission renewal : Outcome

-- RecordFailure, RecordAdmit, RecordRenew
unfoldable pub bump : Outcome → Entry → Entry
bump failure e = record e { failed = e.failed + 1 }
bump admission e = record e { admits = e.admits + 1 }
bump renewal e = record e { renews = e.renews + 1 }

abbrev pub first_entry : Time → Entry
first_entry now = record { first_seen = now; last_seen = now; failed = 0; admits = 0; renews = 0 }

-- record
unfoldable pub note : Str → Outcome → Time → Log → Log
note ip o now l = elim (lookup ip l.entries) [
  | some e ↦ record l { entries = insert ip (bump o (record e { last_seen = now })) l.entries }
  | none ↦
      let room = if leb l.cap (length l.entries) then make_room now l else l.entries in
      record l { entries = insert ip (bump o (first_entry now)) room }
]

-- ip < jp
unfoldable pub str_lt : Str → Str → Bool
str_lt s [] = false
str_lt [] (d ∷ t) = true
str_lt (c ∷ s) (d ∷ t) = ltb c d || (c == d && str_lt s t)

-- The order of a snapshot: the latest activity first, ties by address.
unfoldable pub row_lt : Str × Entry → Str × Entry → Bool
row_lt (ip, e) (jp, f) =
    if not (e.last_seen == f.last_seen) then ltb f.last_seen e.last_seen else str_lt ip jp

-- sort.Slice, by insertion: with distinct addresses the order leaves one result.
unfoldable pub place : Str × Entry → Map Entry → Map Entry
place x [] = x ∷ []
place x (y ∷ ys) = let rest = place x ys in if row_lt x y then x ∷ y ∷ ys else y ∷ rest

unfoldable pub sort : Map Entry → Map Entry
sort [] = []
sort (x ∷ xs) = place x (sort xs)

-- Snapshot, with the log that it leaves.
unfoldable pub snapshot : Time → Log → Log × Map Entry
unfolding prune sort
snapshot now l = let kept = prune l.ttl now l.entries in (record l { entries = kept }, sort kept)

-- Len
unfoldable pub len : Time → Log → Log × ℕ
unfolding prune
len now l = let kept = prune l.ttl now l.entries in (record l { entries = kept }, length kept)
