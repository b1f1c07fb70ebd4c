-- ===== src/Config/Validated.antt =====
-- What Payments.validate promises: every rail has its price under every rule, and settlement goes over
-- links that can be trusted.
use anteroom.Common.{
  ℕ, ◌≡◌, refl, sym, ◌∙◌, ap, subst, ◌≢◌, inl, inr, some, List, [], ◌∷◌, arith, pos, All,
  Bool-cases, Option-cases,
}
use anteroom.Common.Text.{Str, is_empty, str_eq_iff}
use anteroom.Common.Result.{Result, ok, Result-cases}
use anteroom.Common.Map.{Map, lookup, insert, lookup-insert}
use anteroom.Bypass.{check_paths}
use anteroom.Config.Price.{parse_price}
use anteroom.Config.Pricing.{IsPrice, price_sound}
use anteroom.Config.Payments.{
  Rail, Rule, Payments, Platform, check_facilitator_url, parse_header_list, check_pay_to,
  check_rails, price_rails, check_rule, check_rules, validate_payments,
}
use anteroom.Config.Offering.{
  IsTrusted, check_facilitator_url-IsTrusted, IsChecked, Pairs, Distinct, check_rails-Pairs,
}

-- The rail has a price under the rule, and it is the display price exactly.
pub record IsPriced (price : Str) (m : Map ℕ) (rl : Rail) : Type 0 where
  pub amount : ℕ
  pub places : ℕ
  pub known : lookup rl.network m ≡ some amount
  pub decimals : rl.decimals ≡ pos places
  pub exact : IsPrice price places amount

-- The first rail of a priced list and the rest.
price_step :
    (price : Str) (m : Map ℕ) (rl : Rail) (rls : List Rail) (out : Map ℕ)
    → price_rails price m (rl ∷ rls) ≡ ok out
    → (n : ℕ) × (parse_price price rl.decimals ≡ ok n)
      × (price_rails price (insert rl.network n m) rls ≡ ok out)
unfolding price_rails
price_step price m rl rls out h = elim (Result-cases (parse_price price rl.decimals)) [
  | inr (x, e) ↦ absurd (ground (arith, e))
  | inl (n, e) ↦ (n, e, ground (arith, e))
]

no_rails_left : (price : Str) (m out : Map ℕ) → price_rails price m [] ≡ ok out → out ≡ m
unfolding price_rails
no_rails_left price m out h = ground arith

price_rails-kept :
    (price : Str) (m : Map ℕ) (rls : List Rail) (out : Map ℕ) (k : Str)
    → price_rails price m rls ≡ ok out
    → All (λ q. q.network ≢ k) rls
    → lookup k out ≡ lookup k m
price_rails-kept price m [] out k h a = ap (lookup k) (no_rails_left price m out h)
price_rails-kept price m (rl ∷ rls) out k h a =
    let (n, e, f) = price_step price m rl rls out h in
    price_rails-kept price (insert rl.network n m) rls out k f a.1
    ∙ lookup-insert rl.network k n m
    ∙ ground (arith, a.0, str_eq_iff rl.network k)

price_rails-IsPriced :
    (price : Str) (m : Map ℕ) (rls : List Rail) (out : Map ℕ)
    → price_rails price m rls ≡ ok out
    → Distinct rls
    → All (IsPriced price out) rls
price_rails-IsPriced price m [] out h d = tt
price_rails-IsPriced price m (rl ∷ rls) out h d =
    let (n, e, f) = price_step price m rl rls out h in
    let (places, same, exact) = price_sound price rl.decimals n e in
    (
      record {
        amount = n;
        places = places;
        known =
            price_rails-kept price (insert rl.network n m) rls out rl.network f d.0
            ∙ lookup-insert rl.network rl.network n m
            ∙ ground (arith, str_eq_iff rl.network rl.network);
        decimals = same;
        exact = exact;
      },
      price_rails-IsPriced price (insert rl.network n m) rls out f d.1,
    )

rule_step :
    (rails : List Rail) (seen : List Str) (r out : Rule)
    → check_rule rails seen r ≡ ok out
    → (m : Map ℕ) × (price_rails r.price [] rails ≡ ok m) × (out ≡ record r { price_atomic = m })
unfolding check_rule
rule_step rails seen r out h = elim (Option-cases (check_paths r.paths)) [
  | inr (x, e) ↦ absurd (ground (arith, e))
  | inl e ↦ elim (Result-cases (price_rails r.price [] rails)) [
    | inr (x, f) ↦ absurd (ground (arith, e, f))
    | inl (m, f) ↦ (m, f, ground (arith, e, f))
  ]
]

-- Every rail is priced under the rule.
abbrev pub Prices : List Rail → Rule → Type 0
Prices rails r = All (IsPriced r.price r.price_atomic) rails

none_checked :
    {E : Type 0} (outs : List Rule) (r : Result E (List Rule)) → r ≡ ok [] → r ≡ ok outs → [] ≡ outs
none_checked outs r e h = ground arith

check_rules-Prices :
    (rails : List Rail) (seen : List Str) (rs outs : List Rule)
    → Distinct rails
    → check_rules rails seen rs ≡ ok outs
    → All (Prices rails) outs
unfolding check_rules
check_rules-Prices rails seen [] outs d h =
    subst (All (Prices rails)) (none_checked outs (check_rules rails seen []) refl h) tt
check_rules-Prices rails seen (r ∷ rs) outs d h = elim (Result-cases (check_rule rails seen r)) [
  | inr (x, e) ↦ absurd (ground (arith, e))
  | inl (out, e) ↦ elim (Result-cases (check_rules rails (r.name ∷ seen) rs)) [
    | inr (x, f) ↦ absurd (ground (arith, e, f))
    | inl (more, f) ↦
        let same : outs ≡ out ∷ more = ground (arith, e, f) in
        let (m, p, shape) = rule_step rails seen r out e in
        subst (All (Prices rails)) (sym same) (
          subst (Prices rails) (sym shape) (price_rails-IsPriced r.price [] rails m p d),
          check_rules-Prices rails (r.name ∷ seen) rs more d f,
        )
  ]
]

-- The steps of Payments.validate that the promises rest on.
record Steps (pl : Platform) (p q : Payments) : Type 0 where
  global : Map (List Str)
  headers : parse_header_list pl p.facilitator_headers ≡ ok global
  url : check_facilitator_url pl p.facilitator ≡ ok tt
  rails : check_rails pl p.pay_to p.facilitator global [] p.rails ≡ ok q.rails
  rules : check_rules q.rails [] p.rules ≡ ok q.rules
  named : p.facilitator ≢ []

validate_payments-Steps :
    (pl : Platform) (p q : Payments) → validate_payments pl p ≡ ok q → Steps pl p q
unfolding validate_payments
validate_payments-Steps pl p q h = elim (Result-cases (check_facilitator_url pl p.facilitator)) [
  | inr (x, e) ↦ absurd (ground (arith, e))
  | inl (u, e) ↦ elim (Result-cases (parse_header_list pl p.facilitator_headers)) [
    | inr (x, f) ↦ absurd (ground (arith, e, f))
    | inl (global, f) ↦ elim (Result-cases (check_pay_to p.pay_to p.rails)) [
      | inr (x, g) ↦ absurd (ground (arith, e, f, g))
      | inl (v, g) ↦ elim (Result-cases (check_rails pl p.pay_to p.facilitator global [] p.rails)) [
        | inr (x, i) ↦ absurd (ground (arith, e, f, g, i))
        | inl (rails, i) ↦ elim (Result-cases (check_rules rails [] p.rules)) [
          | inr (x, j) ↦ absurd (ground (arith, e, f, g, i, j))
          | inl (rules, j) ↦
              let same : (q.rails ≡ rails) × (q.rules ≡ rules) = ground (arith, e, f, g, i, j) in
              record {
                global = global;
                headers = f;
                url = e;
                rails = i ∙ ap ok (sym same.0);
                rules = ap (λ x. check_rules x [] p.rules) same.0 ∙ j ∙ ap ok (sym same.1);
                named = λ z. ground (arith, z);
              }
        ]
      ]
    ]
  ]
]

-- After Payments.validate, every rule has a price for every rail: the display price of the rule in the
-- decimals of the rail, exactly, and never 0.
pub validate_payments-Prices :
    (pl : Platform) (p q : Payments) → validate_payments pl p ≡ ok q → All (Prices q.rails) q.rules
validate_payments-Prices pl p q h =
    let s = validate_payments-Steps pl p q h in
    let (pairs, apart, distinct) =
      check_rails-Pairs pl p.pay_to p.facilitator s.global [] p.rails q.rails s.rails in
    check_rules-Prices q.rails [] p.rules q.rules distinct s.rules

Pairs-map :
    {R S : Rail → Rail → Type 0}
    → ((x y : Rail) → R x y → S x y)
    → (xs ys : List Rail) → Pairs R xs ys
    → Pairs S xs ys
Pairs-map f [] [] h = tt
Pairs-map f [] (y ∷ ys) h = absurd h
Pairs-map f (x ∷ xs) [] h = absurd h
Pairs-map f (x ∷ xs) (y ∷ ys) h = (f x y h.0, Pairs-map f xs ys h.1)

rail-IsTrusted :
    (pl : Platform) (facilitator : Str) (global : Map (List Str)) (given rl : Rail)
    → IsTrusted pl facilitator
    → IsChecked pl facilitator global given rl
    → IsTrusted pl rl.facilitator
rail-IsTrusted pl facilitator global given rl t c = elim (Bool-cases (is_empty given.facilitator)) [
  | inl e ↦
      let (same, headers, none_given) = c.inherits (ground arith) in
      subst (IsTrusted pl) (sym same) t
  | inr e ↦ c.trusted (λ z. ground (arith, e, z))
]

-- After Payments.validate, each rail calls a facilitator by https, or by http on the loopback, at a URL
-- without credentials; with its own facilitator it sends its own headers and no others, and without
-- one it has the facilitator of the section with the headers of the section.
pub validate_payments-Pairs :
    (pl : Platform) (p q : Payments)
    → validate_payments pl p ≡ ok q
    → (global : Map (List Str)) × (parse_header_list pl p.facilitator_headers ≡ ok global)
      × Pairs
          (λ given rl. IsTrusted pl rl.facilitator × IsChecked pl p.facilitator global given rl)
          p.rails
          q.rails
validate_payments-Pairs pl p q h =
    let s = validate_payments-Steps pl p q h in
    let (pairs, apart, distinct) =
      check_rails-Pairs pl p.pay_to p.facilitator s.global [] p.rails q.rails s.rails in
    let t = check_facilitator_url-IsTrusted pl p.facilitator s.url in
    (
      s.global,
      s.headers,
      Pairs-map (λ given rl c. (rail-IsTrusted pl p.facilitator s.global given rl t c, c)) p.rails
          q.rails pairs,
    )
