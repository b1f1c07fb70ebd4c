-- ===== src/Gate/Presentation/Settling.antt =====
-- The pay door with the verifiers of its rails: every offered rail has one, they fail independently,
-- and a pass rests on what a facilitator answered.
use anteroom.Common.{
  ℕ, ◌≡◌, sym, ◌∙◌, ◌≢◌, ◌⊎◌, inl, inr, true, some, List, [], ◌∷◌, ◌++◌, arith, if◌then◌else◌,
  Bool-cases, Option-cases, subst, All,
}
use anteroom.Common.Text.{Str, str_eq, str_eq_iff}
use anteroom.Common.Result.{ok}
use anteroom.Common.Map.{Map, lookup, lookup-insert}
use anteroom.Http.{Request}
use anteroom.Payment.Wire.{Requirements, Payload}
use anteroom.Payment.Identity.{AuthJson, match_rail}
use anteroom.Payment.Identity.Rails.{match_rail_iff}
use anteroom.Payment.Callback.{Callback, Facilitator, Moments, Report, valid, present}
use anteroom.Payment.Callback.Evidence.{IsSettled, present-valid}
use anteroom.Payment.Store.{Grant}
use anteroom.Payment.Store.Records.{Encodes, committed, slot}
use anteroom.Config.Payments.{Rail}
use anteroom.Gate.Presentation.{
  PricedRoute, PayDoor, PayState, Meets, offer_all, offer_rail, identify, serve_payment,
}
use anteroom.Gate.Presentation.Granting.{Entitled, is_grant, serve_payment-Entitled}
use anteroom.Gate.Presentation.Verifiers.{
  Groups, add_rail, add_rails, build_groups, facilitator_identity, verify_on, verifying,
  new_callback,
}

-- Every network that has an identity has the verifier of that identity.
IsComplete : Groups → Type 0
IsComplete g =
    (n k : Str) → lookup n g.of_network ≡ some k → (c : Callback) × (lookup k g.groups ≡ some c)

abbrev identity_of : (List Str → List Str) → Rail → Str
identity_of sort rail = facilitator_identity sort rail.facilitator rail.facilitator_header

IsServed : Map Str → Rail → Type 0
IsServed ns rail = (k : Str) × (lookup rail.network ns ≡ some k)

module _ (sort : List Str → List Str) where
  group-kept :
      (g : Groups) (rail : Rail) (k : Str) (c : Callback)
      → lookup k g.groups ≡ some c
      → (c' : Callback) × (lookup k (add_rail sort g rail).groups ≡ some c')
  unfolding add_rail
  group-kept g rail k c h =
      let key = identity_of sort rail in
      elim (Option-cases (lookup key g.groups)) [
        | inr (old, e) ↦ (c, ground (arith, e))
        | inl e ↦
            (c, ground (arith, e, lookup-insert key k new_callback g.groups, str_eq_iff key k))
      ]

  key-added :
      (g : Groups) (rail : Rail)
      → (c : Callback) × (lookup (identity_of sort rail) (add_rail sort g rail).groups ≡ some c)
  unfolding add_rail
  key-added g rail =
      let key = identity_of sort rail in
      elim (Option-cases (lookup key g.groups)) [
        | inr (old, e) ↦ (old, ground (arith, e))
        | inl e ↦ (
          new_callback,
          ground (arith, e, lookup-insert key key new_callback g.groups, str_eq_iff key key),
        )
      ]

  add_rail-networks :
      (g : Groups) (rail : Rail) (n : Str)
      → lookup n (add_rail sort g rail).of_network
        ≡ (if str_eq rail.network n then some (identity_of sort rail) else lookup n g.of_network)
  unfolding add_rail
  add_rail-networks g rail n = lookup-insert rail.network n _ g.of_network

  add_rail-IsComplete :
      (g : Groups) (rail : Rail) → IsComplete g → IsComplete (add_rail sort g rail)
  unfolding IsComplete
  add_rail-IsComplete g rail h n k e = elim (Bool-cases (str_eq rail.network n)) [
    | inl here ↦
        let same : identity_of sort rail ≡ k =
          ground (arith, e, here, add_rail-networks g rail n) in
        subst (λ x. (c : Callback) × (lookup x (add_rail sort g rail).groups ≡ some c)) same
          (key-added g rail)
    | inr other ↦
        let (c, f) = h n k (ground (arith, e, other, add_rail-networks g rail n)) in
        group-kept g rail k c f
  ]

  add_rails-IsComplete :
      (g : Groups) (rails : List Rail) → IsComplete g → IsComplete (add_rails sort g rails)
  unfolding add_rails
  add_rails-IsComplete g [] h = h
  add_rails-IsComplete g (rail ∷ rails) h =
      add_rails-IsComplete (add_rail sort g rail) rails (add_rail-IsComplete g rail h)

  served-kept :
      (g : Groups) (rails : List Rail) (n k : Str)
      → lookup n g.of_network ≡ some k
      → (j : Str) × (lookup n (add_rails sort g rails).of_network ≡ some j)
  unfolding add_rails
  served-kept g [] n k h = (k, h)
  served-kept g (rail ∷ rails) n k h = elim (Bool-cases (str_eq rail.network n)) [
    | inl here ↦
        served-kept (add_rail sort g rail) rails n (identity_of sort rail)
          (add_rail-networks g rail n ∙ ground (arith, here))
    | inr other ↦
        served-kept (add_rail sort g rail) rails n k
          (add_rail-networks g rail n ∙ ground (arith, other))
  ]

  add_rails-IsServed :
      (g : Groups) (rails : List Rail) → All (IsServed (add_rails sort g rails).of_network) rails
  unfolding add_rails IsServed
  add_rails-IsServed g [] = tt
  add_rails-IsServed g (rail ∷ rails) = (
    served-kept (add_rail sort g rail) rails rail.network (identity_of sort rail) (
        add_rail-networks g rail rail.network
        ∙ ground (arith, str_eq_iff rail.network rail.network)),
    add_rails-IsServed (add_rail sort g rail) rails,
  )

All-middle :
    {A : Type 0} (P : A → Type 0) (xs : List A) (x : A) (ys : List A) → All P (xs ++ x ∷ ys) → P x
All-middle P [] x ys h = h.0
All-middle P (z ∷ xs) x ys h = All-middle P xs x ys h.1

offers-served :
    (ns : Map Str) (pay_to : Str) (t : ℕ) (rule : PricedRoute) (rails : List Rail)
    → All (IsServed ns) rails
    → All (λ req. (k : Str) × (lookup req.network ns ≡ some k)) (offer_all pay_to t rule rails)
unfolding offer_all offer_rail IsServed
offers-served ns pay_to t rule [] h = tt
offers-served ns pay_to t rule (rail ∷ rails) h =
    let served = λ (q : Requirements). (k : Str) × (lookup q.network ns ≡ some k) in
    let rest = offers-served ns pay_to t rule rails h.1 in
    elim (Option-cases (lookup rail.network rule.rule.price_atomic)) [
      | inl e ↦
          let step : offer_all pay_to t rule (rail ∷ rails) ≡ offer_all pay_to t rule rails =
            ground (arith, e) in
          subst (All served) (sym step) rest
      | inr (amount, e) ↦
          let step : offer_all pay_to t rule (rail ∷ rails)
              ≡ offer_rail pay_to t rail amount ∷ offer_all pay_to t rule rails =
            ground (arith, e) in
          subst (All served) (sym step) (h.0, rest)
    ]

nothing_served : IsComplete (record { groups = []; of_network = [] })
unfolding IsComplete lookup
nothing_served n k e = absurd (ground arith)

-- Every rail that the gate offers and a payment matches has a verifier, and the gate has made it: the
-- refusal for want of one is never reached.
pub offered_rail_served :
    (sort : List Str → List Str) (rails : List Rail) (rule : PricedRoute) (pay_to : Str)
    (timeout : ℕ) (p : Payload) (req : Requirements) (auth : AuthJson)
    (facilitators : Str → Facilitator) (at : Moments)
    → match_rail p (offer_all pay_to timeout rule rails) ≡ ok req
    → let g = build_groups sort rails in
      ((verifying auth facilitators at g.of_network).has_verifier req.network ≡ true)
      × (key : Str) × (c : Callback) × (lookup req.network g.of_network ≡ some key)
      × (lookup key g.groups ≡ some c)
unfolding verifying IsServed IsComplete
offered_rail_served sort rails rule pay_to timeout p req auth facilitators at h =
    let g = build_groups sort rails in
    let offered = (match_rail_iff p (offer_all pay_to timeout rule rails) req).0 h in
    let all =
      offers-served g.of_network pay_to timeout rule rails
        (add_rails-IsServed sort (record { groups = []; of_network = [] }) rails) in
    let (key, e) =
      All-middle (λ q. (k : Str) × (lookup q.network g.of_network ≡ some k)) offered.before req
        offered.after
        (subst (All (λ q. (k : Str) × (lookup q.network g.of_network ≡ some k))) offered.split
          all) in
    let (c, f) =
      add_rails-IsComplete sort (record { groups = []; of_network = [] }) rails nothing_served
        req.network key e in
    (ground (arith, e), key, c, e, f)

module _ (auth : AuthJson) (facilitators : Str → Facilitator) (at : Moments) (ns : Map Str)
    (p : Payload) (req : Requirements) where
  -- What a valid verdict of the rails' verifiers rests on: the answer of the one facilitator that the
  -- rail of the payment names.
  pub record SettledBy (w : Map Callback) (report : Report) : Type 0 where
    pub key : Str
    pub state : Callback
    pub named : lookup req.network ns ≡ some key
    pub known : lookup key w ≡ some state
    pub settled : IsSettled auth (facilitators key) p req report

  verify_on-SettledBy :
      (w : Map Callback)
      → (verify_on auth facilitators at ns w p req).1.verdict ≡ valid
      → SettledBy w (verify_on auth facilitators at ns w p req).1
  unfolding verify_on
  verify_on-SettledBy w h = elim (Option-cases (lookup req.network ns)) [
    | inl e ↦ absurd (ground (arith, e))
    | inr (key, e) ↦ elim (Option-cases (lookup key w)) [
      | inl f ↦ absurd (ground (arith, e, f))
      | inr (c, f) ↦
          let out : (verify_on auth facilitators at ns w p req).1
              ≡ (present auth (facilitators key) at c p req).1.1 =
            ground (arith, e, f) in
          record {
            key = key;
            state = c;
            named = e;
            known = f;
            settled =
                subst (IsSettled auth (facilitators key) p req) (sym out)
                  (present-valid auth (facilitators key) at c p req (ground (arith, out)));
          }
    ]
  ]

  -- A verification on a rail leaves the verifier of every other facilitator as it is, and so its
  -- breaker.
  pub verify_on_elsewhere :
      (w : Map Callback) (other : Str)
      → lookup req.network ns ≢ some other
      → lookup other (verify_on auth facilitators at ns w p req).0 ≡ lookup other w
  unfolding verify_on
  verify_on_elsewhere w other n = elim (Option-cases (lookup req.network ns)) [
    | inl e ↦ ground (arith, e)
    | inr (key, e) ↦ elim (Option-cases (lookup key w)) [
      | inl f ↦ ground (arith, e, f)
      | inr (c, f) ↦ ground (
        arith,
        e,
        f,
        lookup-insert key other (present auth (facilitators key) at c p req).0 w,
        str_eq_iff key other,
      )
    ]
  ]

-- A presentation is answered with a pass only if it names a payment, by an offered rail, for which the
-- store already held a grant or the facilitator of that rail answered that it settled the payment, and
-- the store then holds the grant of the pass, which is for this route and authority and has not expired.
pub paid_admission :
    (d : PayDoor (Map Callback)) (laws : Encodes d.json) (facilitators : Str → Facilitator)
    (at : Moments) (ns : Map Str) (r : Request) (rule : PricedRoute) (m : Meets) (presented : Str)
    (s : PayState (Map Callback))
    → d.verifiers ≡ verifying d.auth facilitators at ns
    → is_grant (serve_payment d r rule presented m s).1.1 ≡ true
    → (p : Payload) × (req : Requirements) × (id : Str) × (identify d r rule presented
        ≡ ok (p, (req, id)))
      × (((w : Grant) × (slot d.json s.bucket id ≡ committed w))
          ⊎ SettledBy d.auth facilitators at ns p req s.world
              (verify_on d.auth facilitators at ns s.world p req).1)
      × Entitled d r rule m id
          (serve_payment d r rule presented m s).0.bucket
          (serve_payment d r rule presented m s).1
unfolding verifying
paid_admission d laws facilitators at ns r rule m presented s v h =
    let (p, req, id, q, source, e) = serve_payment-Entitled d laws r rule m presented s h in
    (
      p,
      req,
      id,
      q,
      elim source [
        | inl held ↦ inl held
        | inr settled ↦ inr (
            verify_on-SettledBy d.auth facilitators at ns p req s.world
              (ground (arith, v, settled)))
      ],
      e,
    )
