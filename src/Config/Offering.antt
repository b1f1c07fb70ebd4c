-- ===== src/Config/Offering.antt =====
-- What a checked section of payments promises: every rail has its price under every rule, and a
-- facilitator is called over a link that can be trusted, with its own headers only.
use anteroom.Common.{
  ◌≡◌, refl, sym, ◌∙◌, ap, subst, ◌≢◌, ◌⊎◌, inl, inr, true, false, some, List, [], ◌∷◌, any, arith,
  if◌then◌else◌, is_zero, All, Bool-cases, Option-cases,
}
use anteroom.Common.Text.{Str, text, is_empty, str_eq, str_eq_iff}
use anteroom.Common.Result.{ok, Result-cases}
use anteroom.Common.Map.{Map}
use anteroom.Config.Payments.{
  Rail, Url, Platform, is_http, check_facilitator_url, parse_header_list, filled, own_facilitator,
  check_rail, check_rails,
}

-- A URL that the gate may send a payment to.
pub record IsTrusted (pl : Platform) (raw : Str) : Type 0 where
  pub url : Url
  pub parsed : pl.parse_url raw ≡ some url
  pub link : (url.scheme ≡ text "https") ⊎ ((url.scheme ≡ text "http") × (url.loopback ≡ true))
  pub silent : url.has_user ≡ false

pub check_facilitator_url-IsTrusted :
    (pl : Platform) (raw : Str) → check_facilitator_url pl raw ≡ ok tt → IsTrusted pl raw
unfolding check_facilitator_url is_http
check_facilitator_url-IsTrusted pl raw h = elim (Option-cases (pl.parse_url raw)) [
  | inl e ↦ absurd (ground (arith, e))
  | inr (u, e) ↦ record {
    url = u;
    parsed = e;
    link = elim (Bool-cases (str_eq u.scheme (text "https"))) [
      | inl s ↦ inl ((str_eq_iff u.scheme (text "https")).0 s)
      | inr o ↦
          inr ((str_eq_iff u.scheme (text "http")).0 (ground (arith, e, o)), ground (arith, e, o))
    ];
    silent = ground (arith, e);
  }
]

-- The rail after the checks, from the rail as it was given.
pub record IsChecked (pl : Platform) (facilitator : Str) (global : Map (List Str)) (given rl : Rail)
    : Type 0 where
  pub network : rl.network ≡ given.network
  pub trusted : (given.facilitator ≢ []) → IsTrusted pl rl.facilitator
  pub own :
      (given.facilitator ≢ [])
      → (rl.facilitator ≡ given.facilitator)
        × (parse_header_list pl given.facilitator_headers ≡ ok rl.facilitator_header)
  pub inherits :
      (given.facilitator ≡ [])
      → (rl.facilitator ≡ facilitator)
        × (rl.facilitator_header ≡ global)
        × (given.facilitator_headers ≡ [])

own_facilitator-IsChecked :
    (pl : Platform) (facilitator : Str) (global : Map (List Str)) (given rl : Rail)
    → own_facilitator pl facilitator global given ≡ ok rl
    → IsChecked pl facilitator global given rl
unfolding own_facilitator
own_facilitator-IsChecked pl facilitator global given rl h =
    elim (Bool-cases (is_empty given.facilitator)) [
      | inl none_given ↦ record {
        network = ground (arith, none_given);
        trusted = λ n. absurd (ground (arith, none_given, n));
        own = λ n. absurd (ground (arith, none_given, n));
        inherits = λ n. ground (arith, none_given);
      }
      | inr own_given ↦ elim (Result-cases (check_facilitator_url pl given.facilitator)) [
        | inr (x, e) ↦ absurd (ground (arith, own_given, e))
        | inl (u, e) ↦ elim (Result-cases (parse_header_list pl given.facilitator_headers)) [
          | inr (x, f) ↦ absurd (ground (arith, own_given, e, f))
          | inl (h', f) ↦
              let out : rl ≡ record given { facilitator_header = h' } =
                ground (arith, own_given, e, f) in
              subst (IsChecked pl facilitator global given) (sym out) (record {
                network = refl;
                trusted = λ n. check_facilitator_url-IsTrusted pl given.facilitator e;
                own = λ n. (refl, f);
                inherits = λ n. absurd (ground (arith, own_given, n));
              })
        ]
      ]
    ]

-- What the defaults leave as it is.
filled_lem :
    (rl : Rail)
    → ((filled rl).network ≡ rl.network)
      × ((filled rl).facilitator ≡ rl.facilitator)
      × ((filled rl).facilitator_headers ≡ rl.facilitator_headers)
unfolding filled
filled_lem rl = elim (Bool-cases (is_zero rl.decimals)) [
  | inl z ↦ elim (Bool-cases (is_empty rl.asset_transfer_method)) [
    | inl e ↦ ground (arith, z, e)
    | inr e ↦ ground (arith, z, e)
  ]
  | inr z ↦ elim (Bool-cases (is_empty rl.asset_transfer_method)) [
    | inl e ↦ ground (arith, z, e)
    | inr e ↦ ground (arith, z, e)
  ]
]

check_rail-IsChecked :
    (pl : Platform) (pay_to facilitator : Str) (global : Map (List Str)) (seen : List Str)
    (given out : Rail)
    → check_rail pl pay_to facilitator global seen given ≡ ok out
    → IsChecked pl facilitator global given out × (any (str_eq given.network) seen ≡ false)
unfolding check_rail
check_rail-IsChecked pl pay_to facilitator global seen given out h =
    let rl = filled given in
    let (n, f, k) = filled_lem given in
    elim (Result-cases (own_facilitator pl facilitator global rl)) [
      | inr (x, e) ↦ absurd (ground (arith, e))
      | inl (own, e) ↦
          let c = own_facilitator-IsChecked pl facilitator global rl own e in
          let last : out ≡ (if is_empty rl.pay_to then record own { pay_to = pay_to } else own) =
            ground (arith, e) in
          let fresh : any (str_eq given.network) seen ≡ false = ground (arith, e) in
          let fields : (out.network ≡ own.network)
              × (out.facilitator ≡ own.facilitator)
              × (out.facilitator_header ≡ own.facilitator_header) =
            ground (arith, last) in
          let (fn, ff, fh) = fields in
          (
            record {
              network = fn ∙ c.network ∙ n;
              trusted = λ g. subst (IsTrusted pl) (sym ff) (c.trusted (λ z. g (sym f ∙ z)));
              own = λ g.
                  let (a, b) = c.own (λ z. g (sym f ∙ z)) in
                  (ff ∙ a ∙ f, ap (parse_header_list pl) (sym k) ∙ b ∙ ap ok (sym fh));
              inherits = λ g. let (a, b, o) = c.inherits (f ∙ g) in (ff ∙ a, fh ∙ b, sym k ∙ o);
            },
            fresh,
          )
    ]

-- Two lists of the same length, related in order.
abbrev pub Pairs : (Rail → Rail → Type 0) → List Rail → List Rail → Type 0
Pairs R [] [] = Unit
Pairs R [] (y ∷ ys) = ⊥
Pairs R (x ∷ xs) [] = ⊥
Pairs R (x ∷ xs) (y ∷ ys) = R x y × Pairs R xs ys

-- No two rails are of one network.
abbrev pub Distinct : List Rail → Type 0
Distinct [] = Unit
Distinct (rl ∷ rls) = All (λ q. q.network ≢ rl.network) rls × Distinct rls

pub All-map :
    {A : Type 0} {P Q : A → Type 0} → ((a : A) → P a → Q a) → (xs : List A) → All P xs → All Q xs
All-map f [] h = tt
All-map f (x ∷ xs) h = (f x h.0, All-map f xs h.1)

other_network :
    (given out q : Rail) (seen : List Str)
    → out.network ≡ given.network
    → any (str_eq q.network) (given.network ∷ seen) ≡ false
    → q.network ≢ out.network
unfolding any
other_network given out q seen e a z =
    ground (arith, a, (str_eq_iff q.network given.network).1 (z ∙ e))

module _ (pl : Platform) (pay_to facilitator : Str) (global : Map (List Str)) where
  -- The first rail of a checked list and the rest.
  rails_step :
      (seen : List Str) (given : Rail) (rest outs : List Rail)
      → check_rails pl pay_to facilitator global seen (given ∷ rest) ≡ ok outs
      → (out : Rail) × (more : List Rail) × (outs ≡ out ∷ more)
        × (check_rail pl pay_to facilitator global seen given ≡ ok out)
        × (check_rails pl pay_to facilitator global (given.network ∷ seen) rest ≡ ok more)
  unfolding check_rails
  rails_step seen given rest outs h =
      elim (Result-cases (check_rail pl pay_to facilitator global seen given)) [
        | inr (x, e) ↦ absurd (ground (arith, e))
        | inl (out, e) ↦
            elim (Result-cases
              (check_rails pl pay_to facilitator global (given.network ∷ seen) rest)) [
                | inr (x, f) ↦ absurd (ground (arith, e, f))
                | inl (more, f) ↦ (out, more, ground (arith, e, f), e, f)
              ]
      ]

  pub check_rails-Pairs :
      (seen : List Str) (given outs : List Rail)
      → check_rails pl pay_to facilitator global seen given ≡ ok outs
      → Pairs (IsChecked pl facilitator global) given outs
        × All (λ q. any (str_eq q.network) seen ≡ false) outs
        × Distinct outs
  unfolding check_rails any
  check_rails-Pairs seen [] [] h = (tt, tt, tt)
  check_rails-Pairs seen [] (o ∷ outs) h = absurd (ground arith)
  check_rails-Pairs seen (g ∷ given) outs h =
      let (out, more, same, e, f) = rails_step seen g given outs h in
      let (c, fresh) = check_rail-IsChecked pl pay_to facilitator global seen g out e in
      let (pairs, apart, distinct) = check_rails-Pairs (g.network ∷ seen) given more f in
      subst
        (λ x.
          Pairs (IsChecked pl facilitator global) (g ∷ given) x
          × All (λ q. any (str_eq q.network) seen ≡ false) x
          × Distinct x)
        (sym same)
        (
          (c, pairs),
          (
            ap (λ k. any (str_eq k) seen) c.network ∙ fresh,
            All-map (λ q a. ground (arith, a)) more apart,
          ),
          (All-map (λ q a z. other_network g out q seen c.network a z) more apart, distinct),
        )
