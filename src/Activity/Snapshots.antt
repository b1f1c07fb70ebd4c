-- ===== src/Activity/Snapshots.antt =====
-- Snapshot and Len: the entries that have not expired, in the order of the consumer.
use anteroom.Common.{
  ◌-◌, ◌≡◌, refl, ◌≤◌, inl, inr, true, false, [], ◌∷◌, length, Time, Duration, arith, Bool-cases,
  All,
}
use mathlib.Core.List.{Permᴰ}
use mathlib.Core.List.Permᴰ
use anteroom.Common.Text.{Str}
use anteroom.Common.Map.{Map}
use anteroom.Activity.{Entry, Log, is_expired, prune, str_lt, row_lt, place, sort, snapshot, len}

str_lt_asym : (s t : Str) → str_lt s t ≡ true → str_lt t s ≡ false
unfolding str_lt
str_lt_asym [] [] h = refl
str_lt_asym [] (d ∷ t) h = refl
str_lt_asym (c ∷ s) [] h = cc
str_lt_asym (c ∷ s) (d ∷ t) h = ground (arith, str_lt_asym s t)

row_lt_asym : (x y : Str × Entry) → row_lt x y ≡ true → row_lt y x ≡ false
unfolding row_lt
row_lt_asym (ip, e) (jp, f) h = ground (arith, str_lt_asym ip jp)

-- No row comes before the one in front of it.
abbrev pub IsSorted : Map Entry → Type 0
IsSorted [] = Unit
IsSorted (x ∷ []) = Unit
IsSorted (x ∷ y ∷ ys) = (row_lt y x ≡ false) × IsSorted (y ∷ ys)

place-IsSorted : (x : Str × Entry) (ys : Map Entry) → IsSorted ys → IsSorted (place x ys)
unfolding place
place-IsSorted x [] h = tt
place-IsSorted x (y ∷ []) h = ground (arith, row_lt_asym x y)
place-IsSorted x (y ∷ z ∷ zs) h =
    ground (arith, row_lt_asym x y, row_lt_asym x z, place-IsSorted x (z ∷ zs) h.1)

sort-IsSorted : (xs : Map Entry) → IsSorted (sort xs)
unfolding sort
sort-IsSorted [] = tt
sort-IsSorted (x ∷ xs) = place-IsSorted x (sort xs) (sort-IsSorted xs)

place-Perm : (x : Str × Entry) (ys : Map Entry) → Permᴰ (place x ys) (x ∷ ys)
unfolding place
place-Perm x [] = Permᴰ.refl (x ∷ [])
place-Perm x (y ∷ ys) = elim (Bool-cases (row_lt x y)) [
  | inl b ↦ rw b (Permᴰ.refl (x ∷ y ∷ ys))
  | inr b ↦ rw b (Permᴰ.trans (Permᴰ.cons refl (place-Perm x ys)) (Permᴰ.swap refl refl))
]

sort-Perm : (xs : Map Entry) → Permᴰ (sort xs) xs
unfolding sort
sort-Perm [] = Permᴰ.nil
sort-Perm (x ∷ xs) = Permᴰ.trans (place-Perm x (sort xs)) (Permᴰ.cons refl (sort-Perm xs))

prune_fresh :
    (ttl : Duration) (now : Time) (es : Map Entry)
    → All (λ x. (now - x.1.last_seen) ≤ ttl) (prune ttl now es)
unfolding prune is_expired
prune_fresh ttl now [] = tt
prune_fresh ttl now (x ∷ es) = ground (arith, prune_fresh ttl now es)

prune_idem :
    (ttl : Duration) (now : Time) (es : Map Entry)
    → All (λ x. (now - x.1.last_seen) ≤ ttl) es
    → prune ttl now es ≡ es
unfolding prune is_expired
prune_idem ttl now [] h = refl
prune_idem ttl now (x ∷ es) h = ground (arith, prune_idem ttl now es h.1)

-- A snapshot lists the entries that are left in the log, which are none quiet for longer than the
-- lifetime, with the latest activity first and ties in the order of the addresses; a second snapshot at
-- the same time lists the same, and Len counts its rows.
pub snapshot_lem :
    (now : Time) (l : Log)
    → IsSorted (snapshot now l).1
      × Permᴰ (snapshot now l).1 (snapshot now l).0.entries
      × All (λ x. (now - x.1.last_seen) ≤ l.ttl) (snapshot now l).0.entries
      × (snapshot now (snapshot now l).0 ≡ snapshot now l)
      × ((len now l).1 ≡ length (snapshot now l).0.entries)
unfolding snapshot len
snapshot_lem now l = (
  sort-IsSorted (prune l.ttl now l.entries),
  sort-Perm (prune l.ttl now l.entries),
  prune_fresh l.ttl now l.entries,
  rw (prune_idem l.ttl now (prune l.ttl now l.entries) (prune_fresh l.ttl now l.entries)) refl,
  refl,
)
