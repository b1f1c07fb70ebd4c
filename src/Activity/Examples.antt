-- ===== src/Activity/Examples.antt =====
-- A log of two addresses, and the theorems of the log on it.
use anteroom.Common.{◌≡◌, refl, ◌≢◌, ◌≤◌, ◌⊎◌, false, none, some, [], ◌∷◌, arith, All, pos}
use anteroom.Common.Text.{Str, text, str_eq}
use anteroom.Common.Map.{lookup, insert, remove}
use anteroom.Activity.{
  Entry, Log, new, is_expired, prune, quieter, quietest, make_room, failure, bump, note, snapshot,
  sort, place, row_lt, str_lt,
}
use anteroom.Activity.Bounds.{IsBounded, note-IsBounded}
use anteroom.Activity.Counts.{Distinct, IsLater, lookup-note_others}

abbrev early : Entry
early = record { first_seen = 1; last_seen = 5; failed = 2; admits = 0; renews = 0 }

abbrev late : Entry
late = record { first_seen = 2; last_seen = 7; failed = 0; admits = 1; renews = 0 }

abbrev full : Log
full = record { entries = (text "a", early) ∷ (text "b", late) ∷ []; ttl = 100; cap = 2 }

evicts :
    (note (text "c") failure 9 full).entries
    ≡ (text "b", late)
      ∷ (text "c", record { first_seen = 9; last_seen = 9; failed = 1; admits = 0; renews = 0 })
      ∷ []
unfolding note lookup make_room prune quietest quieter is_expired remove insert bump str_eq text
evicts = refl

sorts : (snapshot 9 full).1 ≡ (text "b", late) ∷ (text "a", early) ∷ []
unfolding snapshot prune is_expired sort place row_lt str_lt text
sorts = refl

has_cap : (new (pos 0) (pos 0)).cap ≡ 8192
unfolding new
has_cap = refl

c_named : text "c" ≢ []
unfolding text
c_named h = ground arith

named : All (λ (x : Str × Entry). x.0 ≢ []) full.entries
unfolding text
named = (λ h. ground arith, (λ h. ground arith, tt))

bounded : IsBounded full
bounded = record { small = omega arith; named = named }

note-IsBounded_example : IsBounded (note (text "c") failure 9 full)
note-IsBounded_example = note-IsBounded (text "c") failure 9 full c_named (omega arith) bounded

a_fresh : (lookup (text "a") full.entries ≡ some early) × (is_expired 100 9 early ≡ false)
unfolding lookup is_expired str_eq text
a_fresh = (refl, refl)

distinct : Distinct full.entries
unfolding lookup str_eq text
distinct = (refl, (refl, tt))

a_other : text "a" ≢ text "c"
unfolding text
a_other h = ground arith

lookup-note_others_example :
    (lookup (text "a") (note (text "c") failure 9 full).entries ≡ some early)
    ⊎ ((lookup (text "c") full.entries ≡ none) × (2 ≤ 2) × All (IsLater 100 9 5) full.entries)
lookup-note_others_example =
    lookup-note_others (text "c") (text "a") failure 9 full early distinct named a_other a_fresh.0
      a_fresh.1
