-- ===== src/Activity/Counts.antt =====
-- What recording an outcome does to the counts, and which entry gives way in a full log.
use anteroom.Common.{
  ◌≡◌, refl, ◌∙◌, ◌≢◌, ◌≤◌, ◌⊎◌, inl, inr, true, false, ◌&&◌, ◌||◌, not, Option, none, some, [],
  ◌∷◌, ltb, leb, if◌then◌else◌, length, Time, Duration, arith, Option-cases, Bool-cases, All,
}
use anteroom.Common.Text.{Str, is_empty, str_eq, str_eq_iff}
use anteroom.Common.Map.{Map, lookup, lookup-insert, lookup-remove}
use anteroom.Activity.{
  Entry, Log, is_expired, prune, quieter, quietest, make_room, Outcome, bump, first_entry, note,
}

-- The entry that the address has before an outcome is counted.
abbrev pub base : Time → Option Entry → Entry
base now none = first_entry now
base now (some e) = record e { last_seen = now }

-- After an outcome the log holds an entry for its address, with the outcome counted on top of what was
-- known, first seen when it first was, and last seen now.
pub lookup-note :
    (ip : Str) (o : Outcome) (now : Time) (l : Log)
    → lookup ip (note ip o now l).entries ≡ some (bump o (base now (lookup ip l.entries)))
unfolding note
lookup-note ip o now l = elim (Option-cases (lookup ip l.entries)) [
  | inr (e, known) ↦ ground (
    arith,
    known,
    str_eq_iff ip ip,
    lookup-insert ip ip (bump o (record e { last_seen = now })) l.entries,
  )
  | inl new ↦ ground (
    arith,
    new,
    str_eq_iff ip ip,
    lookup-insert ip ip (bump o (first_entry now))
        (if leb l.cap (length l.entries) then make_room now l else l.entries),
  )
]

module _ (ttl : Duration) (now : Time) where
  -- The entry has expired, or was not seen before the given time.
  abbrev pub IsLater : Time → Str × Entry → Type 0
  IsLater at x = (is_expired ttl now x.1 ≡ true) ⊎ (at ≤ x.1.last_seen)

  IsLater-trans : (s t : Time) (es : Map Entry) → s ≤ t → All (IsLater t) es → All (IsLater s) es
  IsLater-trans s t [] le h = tt
  IsLater-trans s t (x ∷ es) le h = (ground (arith, h.0), IsLater-trans s t es le h.1)

  step_named :
      (best : Str × Time) (x : Str × Entry)
      → x.0 ≢ []
      → best.0 ≢ []
      → ((quieter ttl now best x).0 ≢ []) × ((quieter ttl now best x).1 ≤ best.1)
  unfolding quieter
  step_named best x h n = ground arith

  step_fresh :
      (best : Str × Time) (x : Str × Entry)
      → x.0 ≢ []
      → is_expired ttl now x.1 ≡ false
      → ((quieter ttl now best x).0 ≢ []) × ((quieter ttl now best x).1 ≤ x.1.last_seen)
  unfolding quieter
  step_fresh best x h f = ground arith

  quietest_first :
      (best : Str × Time) (es : Map Entry)
      → All (λ x. x.0 ≢ []) es
      → best.0 ≢ []
      → (quietest ttl now best es).1 ≤ best.1
  unfolding quietest
  quietest_first best [] h n = ground arith
  quietest_first best (x ∷ es) h n =
      let (named, le) = step_named best x h.0 n in
      let rest = quietest_first (quieter ttl now best x) es h.1 named in ground (arith, rest, le)

  -- The one found is the quietest of those that have not expired.
  quietest-IsLater :
      (best : Str × Time) (es : Map Entry)
      → All (λ x. x.0 ≢ []) es
      → All (IsLater (quietest ttl now best es).1) es
  unfolding quietest
  quietest-IsLater best [] h = tt
  quietest-IsLater best (x ∷ es) h = (
    elim (Bool-cases (is_expired ttl now x.1)) [
      | inl old ↦ inl old
      | inr fresh ↦
          let (named, le) = step_fresh best x h.0 fresh in
          let rest = quietest_first (quieter ttl now best x) es h.1 named in
          inr (ground (arith, rest, le))
    ],
    quietest-IsLater (quieter ttl now best x) es h.1,
  )

-- The entries keep distinct addresses, which a Go map does.
abbrev pub Distinct : Map Entry → Type 0
Distinct [] = Unit
Distinct ((ip, e) ∷ es) = (lookup ip es ≡ none) × Distinct es

quietest-seen :
    (ttl : Duration) (now : Time) (best : Str × Time) (es : Map Entry)
    → Distinct es
    → (quietest ttl now best es ≡ best)
      ⊎ ((e : Entry) × (lookup (quietest ttl now best es).0 es ≡ some e)
          × (e.last_seen ≡ (quietest ttl now best es).1))
unfolding quietest quieter lookup
quietest-seen ttl now best [] d = inl refl
quietest-seen ttl now best ((ip, e) ∷ es) d =
    let found = quietest ttl now (quieter ttl now best (ip, e)) es in
    elim (quietest-seen ttl now (quieter ttl now best (ip, e)) es d.1) [
      | inl same ↦
          elim (Bool-cases
            (not (is_expired ttl now e) && (is_empty best.0 || ltb e.last_seen best.1))) [
              | inl takes ↦
                  inr
                    (e, ground (arith, same, takes, str_eq_iff ip ip), ground (arith, same, takes))
              | inr keeps ↦ inl (same ∙ ground (arith, keeps))
            ]
      | inr (f, eq, at) ↦ inr (f, ground (arith, eq, d.0, str_eq_iff ip found.0), at)
    ]

lookup-prune_fresh :
    (ttl : Duration) (now : Time) (es : Map Entry) (j : Str) (e : Entry)
    → lookup j es ≡ some e
    → is_expired ttl now e ≡ false
    → lookup j (prune ttl now es) ≡ some e
unfolding lookup prune
lookup-prune_fresh ttl now [] j e h f = h
lookup-prune_fresh ttl now ((ip, d) ∷ es) j e h f =
    ground (arith, lookup-prune_fresh ttl now es j e)

lookup-make_room_others :
    (j : Str) (now : Time) (l : Log) (e : Entry)
    → Distinct l.entries
    → All (λ x. x.0 ≢ []) l.entries
    → lookup j l.entries ≡ some e
    → is_expired l.ttl now e ≡ false
    → (lookup j (make_room now l) ≡ some e) ⊎ All (IsLater l.ttl now e.last_seen) l.entries
unfolding make_room
lookup-make_room_others j now l e d n known fresh =
    let best = quietest l.ttl now ([], 0) l.entries in
    let kept = lookup-prune_fresh l.ttl now l.entries j e known fresh in
    let rest = lookup-remove best.0 j (prune l.ttl now l.entries) in
    elim (Bool-cases (str_eq best.0 j)) [
      | inr other ↦ inl (ground (arith, kept, rest, other))
      | inl same ↦ elim (quietest-seen l.ttl now ([], 0) l.entries d) [
        | inl none_found ↦ inl (ground (arith, kept, none_found))
        | inr (f, eq, at) ↦
            let is_j = (str_eq_iff best.0 j).0 same in
            inr (
              IsLater-trans l.ttl now e.last_seen best.1 l.entries
                (ground (arith, eq, at, is_j, known))
                (quietest-IsLater l.ttl now ([], 0) l.entries n))
      ]
    ]

-- A fresh entry of another address than the one recorded stays as it is, unless the address is new, the
-- log is full, and no entry that is still fresh was quiet for longer.
pub lookup-note_others :
    (ip j : Str) (o : Outcome) (now : Time) (l : Log) (e : Entry)
    → Distinct l.entries
    → All (λ x. x.0 ≢ []) l.entries
    → j ≢ ip
    → lookup j l.entries ≡ some e
    → is_expired l.ttl now e ≡ false
    → (lookup j (note ip o now l).entries ≡ some e)
      ⊎ ((lookup ip l.entries ≡ none)
          × (l.cap ≤ length l.entries)
          × All (IsLater l.ttl now e.last_seen) l.entries)
unfolding note
lookup-note_others ip j o now l e d n ne known fresh = elim (Option-cases (lookup ip l.entries)) [
  | inr (f, old) ↦ inl (
      ground (
        arith,
        old,
        str_eq_iff ip j,
        lookup-insert ip j (bump o (record f { last_seen = now })) l.entries,
      ))
  | inl new ↦ elim (Bool-cases (leb l.cap (length l.entries))) [
    | inr roomy ↦ inl (
        ground (
          arith,
          new,
          roomy,
          str_eq_iff ip j,
          lookup-insert ip j (bump o (first_entry now)) l.entries,
        ))
    | inl full ↦ elim (lookup-make_room_others j now l e d n known fresh) [
      | inl kept ↦ inl (
          ground (
            arith,
            new,
            full,
            kept,
            str_eq_iff ip j,
            lookup-insert ip j (bump o (first_entry now)) (make_room now l),
          ))
      | inr later ↦ inr (new, ground arith, later)
    ]
  ]
]
