-- ===== src/Gate/Passes/Entitlement.antt =====
-- validPassAt and scopeCovers: which cookies open a path.
use anteroom.Common.{
  ◌≡◌, sym, ◌∙◌, ◌≢◌, ◌↔◌, ◌⊎◌, inl, inr, Bool, true, ◌||◌, Option, none, some, List, [], ◌∷◌, Time,
  arith, Option-cases, Bool-cases, Any, Any-map, Any-some,
}
use anteroom.Common.Text.{Str, text, str_eq, str_eq_iff}
use anteroom.Common.Result.{Result-cases}
use anteroom.Http.{Request}
use anteroom.Token.{Pass, kind_pow, kind_paid, scope_all, validate, validate_kind, verify}
use anteroom.Token.Soundness.{Accepts, verify-eq-ok_iff}
use anteroom.Gate.Passes.{
  Gate, cookie_name, scope_covers, cookie_pass, pick_pass, valid_pass_at, request_audience,
  client_prefix,
}

-- A cookie that holds an acceptable pass of this request, and the pass.
pub record Carries (g : Gate) (r : Request) (at : Time) (p : Pass) (c : Str × Str) : Type 0 where
  pub named : c.0 ≡ cookie_name
  pub filled : c.1 ≢ []
  pub accepted : Accepts g.crypto g.keyring c.1 at p
  pub audience : p.aud ≡ request_audience g.net r
  pub network : p.kind ≡ kind_pow → p.ipp ≡ client_prefix g r

module _ (g : Gate) (r : Request) (at : Time) where
  cookie_pass-Carries :
      (c : Str × Str) (p : Pass) → cookie_pass g r at c ≡ some p → Carries g r at p c
  unfolding cookie_pass
  cookie_pass-Carries c p h = elim (Result-cases (verify g.crypto g.keyring c.1 at)) [
    | inr (x, e) ↦ absurd (ground (arith, e))
    | inl (q, e) ↦
        let same : q ≡ p = ground (arith, e) in
        record {
          named = (str_eq_iff c.0 cookie_name).0 (ground (arith, e));
          filled = λ z. ground (arith, e, z);
          accepted = (verify-eq-ok_iff g.crypto g.keyring c.1 at p).0 (ground (arith, e, same));
          audience = (str_eq_iff p.aud (request_audience g.net r)).0 (ground (arith, e, same));
          network = λ k.
              (str_eq_iff p.ipp (client_prefix g r)).0
                (ground (arith, e, same, k, (str_eq_iff p.kind kind_pow).1 k));
        }
  ]

  cookie_pass_complete :
      (c : Str × Str) (p : Pass) → Carries g r at p c → cookie_pass g r at c ≡ some p
  unfolding cookie_pass
  cookie_pass_complete c p h =
      let e = (verify-eq-ok_iff g.crypto g.keyring c.1 at p).1 h.accepted in
      let n = (str_eq_iff c.0 cookie_name).1 h.named in
      let a = (str_eq_iff p.aud (request_audience g.net r)).1 h.audience in
      ground (
        arith,
        e,
        n,
        a,
        h.filled,
        h.network,
        str_eq_iff p.kind kind_pow,
        str_eq_iff p.ipp (client_prefix g r),
      )

  abbrev usable : Pass → Bool
  usable p = str_eq p.kind kind_pow || scope_covers g.routes p r.path

  pow_scope : (p : Pass) → validate p ≡ none → p.kind ≡ kind_pow → p.scope ≡ scope_all
  unfolding validate validate_kind
  pow_scope p v k = ground (arith, str_eq_iff p.kind kind_pow, str_eq_iff p.scope scope_all)

  kinds_differ : kind_pow ≢ kind_paid
  unfolding text
  kinds_differ z = ground arith

  -- An accepted pass of the first kind has the wildcard scope.
  usable-covers :
      (s : Str) (p : Pass)
      → Accepts g.crypto g.keyring s at p
      → usable p ≡ scope_covers g.routes p r.path
  unfolding scope_covers
  usable-covers s p h =
      let pow = pow_scope p h.valid in
      ground (
        arith,
        pow,
        str_eq_iff p.kind kind_pow,
        str_eq_iff p.kind kind_paid,
        str_eq_iff p.scope scope_all,
        kinds_differ,
      )

  pick_pass-usable :
      (fallback : Option Pass) (cs : List (Str × Str))
      → Any (λ c. (p : Pass) × (cookie_pass g r at c ≡ some p) × (usable p ≡ true)) cs
      → (p : Pass) × (pick_pass g r at fallback cs ≡ some p) × (usable p ≡ true)
  unfolding pick_pass
  pick_pass-usable fallback [] h = absurd h
  pick_pass-usable fallback (c ∷ cs) h = elim h [
    | inl (p, e, u) ↦ (p, ground (arith, e, u), u)
    | inr later ↦
        let next : Option Pass = elim fallback [ some q ↦ some q | none ↦ cookie_pass g r at c ] in
        let (p, e, u) = pick_pass-usable next cs later in
        elim (Option-cases (cookie_pass g r at c)) [
          | inl gone ↦ (p, ground (arith, e, gone), u)
          | inr (q, f) ↦ elim (Bool-cases (usable q)) [
            | inl b ↦ (q, ground (arith, f, b), b)
            | inr b ↦ (p, ground (arith, e, f, b), u)
          ]
        ]
  ]

  pick_pass-source :
      (fallback : Option Pass) (cs : List (Str × Str)) (p : Pass)
      → pick_pass g r at fallback cs ≡ some p
      → (fallback ≡ some p) ⊎ Any (λ c. cookie_pass g r at c ≡ some p) cs
  unfolding pick_pass
  pick_pass-source fallback [] p h = inl h
  pick_pass-source fallback (c ∷ cs) p h =
      let next : Option Pass = elim fallback [ some q ↦ some q | none ↦ cookie_pass g r at c ] in
      elim (Option-cases (cookie_pass g r at c)) [
        | inl gone ↦ elim (pick_pass-source next cs p (ground (arith, gone))) [
          | inl f ↦ inl (ground (arith, gone, f))
          | inr later ↦ inr (inr later)
        ]
        | inr (q, e) ↦ elim (Bool-cases (usable q)) [
          | inl b ↦ inr (inl (ground (arith, e, b)))
          | inr b ↦ elim (pick_pass-source next cs p (ground (arith, e, b))) [
            | inl f ↦ elim (Option-cases fallback) [
              | inl open_ ↦ inr (inl (ground (arith, e, f, open_)))
              | inr (q', k) ↦ inl (ground (arith, f, k))
            ]
            | inr later ↦ inr (inr later)
          ]
        ]
      ]

-- A request has a pass that opens its path exactly when some cookie of it is named after the pass and
-- holds one that the keyring accepts, that was made for this authority and, if it was solved for, for
-- this network, and that covers the path. No other cookie takes its place.
pub opens_iff :
    (g : Gate) (r : Request) (at : Time)
    → ((p : Pass) × (valid_pass_at g r at ≡ some p) × (scope_covers g.routes p r.path ≡ true))
      ↔ Any
          (λ c. (p : Pass) × Carries g r at p c × (scope_covers g.routes p r.path ≡ true))
          (g.cookies r.headers)
unfolding valid_pass_at
opens_iff g r at = (
  λ (p, e, covers). elim (pick_pass-source g r at none (g.cookies r.headers) p e) [
    | inl impossible ↦ absurd (ground arith)
    | inr found ↦
        Any-map (λ c h. (p, cookie_pass-Carries g r at c p h, covers)) (g.cookies r.headers) found
  ],
  λ h.
      let (p, e, u) = pick_pass-usable g r at none (g.cookies r.headers) (
        Any-map
          (λ c (p, carries, covers). (
            p,
            cookie_pass_complete g r at c p carries,
            usable-covers g r at c.1 p carries.accepted ∙ covers,
          ))
          (g.cookies r.headers) h) in
      elim (pick_pass-source g r at none (g.cookies r.headers) p e) [
        | inl impossible ↦ absurd (ground arith)
        | inr found ↦
            let (c, k) = Any-some (g.cookies r.headers) found in
            (p, e, sym (usable-covers g r at c.1 p (cookie_pass-Carries g r at c p k).accepted) ∙ u)
      ],
)

-- The pass of a request is one that some cookie carries.
pub valid_pass_at-Carries :
    (g : Gate) (r : Request) (at : Time) (p : Pass)
    → valid_pass_at g r at ≡ some p
    → (c : Str × Str) × Carries g r at p c
unfolding valid_pass_at
valid_pass_at-Carries g r at p e = elim (pick_pass-source g r at none (g.cookies r.headers) p e) [
  | inl impossible ↦ absurd (ground arith)
  | inr found ↦
      let (c, k) = Any-some (g.cookies r.headers) found in (c, cookie_pass-Carries g r at c p k)
]
