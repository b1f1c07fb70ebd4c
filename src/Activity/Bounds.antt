-- ===== src/Activity/Bounds.antt =====
-- The log never outgrows its cap, and what makes room in it.
use anteroom.Common.{
  ◌≡◌, refl, ◌≢◌, ◌≤◌, ◌<◌, ◌⊎◌, inl, inr, ◌||◌, none, some, List, [], ◌∷◌, ltb, leb, length, Time,
  Duration, arith, Option-cases, Bool-cases, All,
}
use anteroom.Common.Text.{Str, is_empty, str_eq, str_eq_iff}
use anteroom.Common.Map.{
  Map, lookup, insert, remove, lookup-remove, length-insert_new, length-insert_old,
  length-remove_old,
}
use anteroom.Activity.{
  Entry, Log, is_expired, prune, quieter, quietest, make_room, Outcome, bump, first_entry, note,
}

abbrev pub IsNamed : Str × Entry → Type 0
IsNamed x = x.0 ≢ []

-- The log is within its cap, and has no entry without an address.
pub record IsBounded (l : Log) : Type 0 where
  pub small : length l.entries ≤ l.cap
  pub named : All IsNamed l.entries

prune-le : (ttl : Duration) (now : Time) (es : Map Entry) → length (prune ttl now es) ≤ length es
unfolding prune
prune-le ttl now [] = omega arith
prune-le ttl now (x ∷ es) = ground (arith, prune-le ttl now es)

prune-IsNamed :
    (ttl : Duration) (now : Time) (es : Map Entry) → All IsNamed es → All IsNamed (prune ttl now es)
unfolding prune
prune-IsNamed ttl now [] h = tt
prune-IsNamed ttl now (x ∷ es) h = ground (arith, prune-IsNamed ttl now es h.1)

remove-IsNamed : (k : Str) (es : Map Entry) → All IsNamed es → All IsNamed (remove k es)
unfolding remove
remove-IsNamed k [] h = tt
remove-IsNamed k (x ∷ es) h = ground (arith, remove-IsNamed k es h.1)

insert-IsNamed :
    (k : Str) (e : Entry) (es : Map Entry) → k ≢ [] → All IsNamed es → All IsNamed (insert k e es)
unfolding insert
insert-IsNamed k e [] n h = (n, tt)
insert-IsNamed k e (x ∷ es) n h = ground (arith, insert-IsNamed k e es n h.1)

lookup-prune :
    (ttl : Duration) (now : Time) (es : Map Entry) (k : Str)
    → lookup k es ≡ none
    → lookup k (prune ttl now es) ≡ none
unfolding lookup prune
lookup-prune ttl now [] k h = refl
lookup-prune ttl now ((ip, e) ∷ es) k h = ground (arith, lookup-prune ttl now es k)

module _ (ttl : Duration) (now : Time) where
  -- The search ends at the address it started with, or at a survivor.
  quietest-survives :
      (best : Str × Time) (es : Map Entry)
      → ((quietest ttl now best es).0 ≡ best.0)
        ⊎ ((e : Entry) × (lookup (quietest ttl now best es).0 (prune ttl now es) ≡ some e))
  unfolding quietest quieter prune lookup
  quietest-survives best [] = inl refl
  quietest-survives best ((ip, e) ∷ es) =
      let found = (quietest ttl now (quieter ttl now best (ip, e)) es).0 in
      elim (quietest-survives (quieter ttl now best (ip, e)) es) [
        | inl same ↦ elim (Bool-cases (is_expired ttl now e)) [
          | inl old ↦ inl (ground (arith, same, old))
          | inr fresh ↦ elim (Bool-cases (is_empty best.0 || ltb e.last_seen best.1)) [
            | inl takes ↦ inr (e, ground (arith, same, fresh, takes, str_eq_iff ip ip))
            | inr keeps ↦ inl (ground (arith, same, fresh, keeps))
          ]
        ]
        | inr (f, eq) ↦ elim (Bool-cases (is_expired ttl now e)) [
          | inl old ↦ inr (f, ground (arith, eq, old))
          | inr fresh ↦ elim (Bool-cases (str_eq ip found)) [
            | inl b ↦ inr (e, ground (arith, fresh, b))
            | inr b ↦ inr (f, ground (arith, fresh, b, eq))
          ]
        ]
      ]

  named_step :
      (best : Str × Time) (ip : Str) (e : Entry) (es : Map Entry)
      → ip ≢ []
      → (best.0 ≢ []) ⊎ (prune ttl now ((ip, e) ∷ es) ≢ [])
      → ((quieter ttl now best (ip, e)).0 ≢ []) ⊎ (prune ttl now es ≢ [])
  unfolding quieter prune
  named_step best ip e es n h = elim (Bool-cases (is_expired ttl now e)) [
    | inl old ↦ ground (arith, old, h)
    | inr fresh ↦ inl (ground (arith, fresh, h))
  ]

  quietest_named :
      (best : Str × Time) (es : Map Entry)
      → All IsNamed es
      → (best.0 ≢ []) ⊎ (prune ttl now es ≢ [])
      → (quietest ttl now best es).0 ≢ []
  unfolding quietest prune
  quietest_named best [] n (inl h) = h
  quietest_named best [] n (inr h) = absurd (h refl)
  quietest_named best ((ip, e) ∷ es) n h =
      quietest_named (quieter ttl now best (ip, e)) es n.1 (named_step best ip e es n.0 h)

cons-ne-nil : {A : Type 0} (xs : List A) → 1 ≤ length xs → xs ≢ []
cons-ne-nil [] h = absurd (omega arith)
cons-ne-nil (x ∷ xs) h = cc

-- A full log gives up a slot.
make_room_bound :
    (now : Time) (l : Log) → IsBounded l → 1 ≤ l.cap → length (make_room now l) < l.cap
unfolding make_room
make_room_bound now l b c =
    let kept = prune l.ttl now l.entries in
    let few = prune-le l.ttl now l.entries in
    elim (Bool-cases (leb l.cap (length kept))) [
      | inr roomy ↦ ground (arith, roomy)
      | inl full ↦
          let some_left : kept ≢ [] = cons-ne-nil kept (ground arith) in
          let named = quietest_named l.ttl now ([], 0) l.entries b.named (inr some_left) in
          elim (quietest-survives l.ttl now ([], 0) l.entries) [
            | inl none_found ↦ absurd (named none_found)
            | inr (e, found) ↦ ground (
              arith,
              full,
              few,
              b.small,
              length-remove_old (quietest l.ttl now ([], 0) l.entries).0 e kept found,
            )
          ]
    ]

make_room-IsNamed : (now : Time) (l : Log) → All IsNamed l.entries → All IsNamed (make_room now l)
unfolding make_room
make_room-IsNamed now l n =
    let kept = prune-IsNamed l.ttl now l.entries n in
    let left =
      remove-IsNamed (quietest l.ttl now ([], 0) l.entries).0 (prune l.ttl now l.entries) kept in
    ground arith

lookup-make_room :
    (now : Time) (l : Log) (k : Str) → lookup k l.entries ≡ none → lookup k (make_room now l) ≡ none
unfolding make_room
lookup-make_room now l k h =
    let gone = lookup-prune l.ttl now l.entries k h in
    ground (
      arith,
      gone,
      lookup-remove (quietest l.ttl now ([], 0) l.entries).0 k (prune l.ttl now l.entries),
    )

-- A log with a positive cap that is within it, and whose entries have addresses, stays so when an
-- outcome of an address is recorded.
pub note-IsBounded :
    (ip : Str) (o : Outcome) (now : Time) (l : Log)
    → ip ≢ []
    → 1 ≤ l.cap
    → IsBounded l
    → IsBounded (note ip o now l)
unfolding note
note-IsBounded ip o now l n c b = elim (Option-cases (lookup ip l.entries)) [
  | inr (e, known) ↦ record {
    small = ground (
      arith,
      known,
      b.small,
      length-insert_old ip (bump o (record e { last_seen = now })) e l.entries known,
    );
    named = ground (
      arith,
      known,
      insert-IsNamed ip (bump o (record e { last_seen = now })) l.entries n b.named,
    );
  }
  | inl new ↦ elim (Bool-cases (leb l.cap (length l.entries))) [
    | inl full ↦
        let less = make_room_bound now l b c in
        let absent = lookup-make_room now l ip new in
        record {
          small = ground (
            arith,
            new,
            full,
            less,
            length-insert_new ip (bump o (first_entry now)) (make_room now l) absent,
          );
          named = ground (
            arith,
            new,
            full,
            insert-IsNamed ip (bump o (first_entry now)) (make_room now l) n
                (make_room-IsNamed now l b.named),
          );
        }
    | inr roomy ↦ record {
      small =
          ground (arith, new, roomy, length-insert_new ip (bump o (first_entry now)) l.entries new);
      named =
          ground
            (arith, new, roomy, insert-IsNamed ip (bump o (first_entry now)) l.entries n b.named);
    }
  ]
]
