-- ===== src/Gate/Presentation/Offers.antt =====
-- The offers of a checked configuration.
use anteroom.Common.{ℕ, ◌≡◌, refl, List, [], ◌∷◌, map, All, arith}
use anteroom.Common.Text.{Str}
use anteroom.Common.Result.{ok}
use anteroom.Config.Payments.{Rail, Rule, Payments, Platform, validate_payments}
use anteroom.Config.Offering.{All-map}
use anteroom.Config.Validated.{Prices, validate_payments-Prices}
use anteroom.Gate.Passes.{PaidRoute}
use anteroom.Gate.Presentation.{offer_all, offer_rail}

-- An offer for each rail, in their order.
abbrev pub OffersAll : Str → ℕ → List Rail → Rule → Type 0
OffersAll pay_to timeout rails r =
    (route : PaidRoute)
    → map (λ q. q.network) (offer_all pay_to timeout (record { route = route; rule = r }) rails)
      ≡ map (λ rl. rl.network) rails

priced-OffersAll :
    (pay_to : Str) (timeout : ℕ) (r : Rule) (rails : List Rail)
    → Prices rails r
    → OffersAll pay_to timeout rails r
unfolding offer_all offer_rail
priced-OffersAll pay_to timeout r [] h route = refl
priced-OffersAll pay_to timeout r (rl ∷ rails) h route =
    let rest = priced-OffersAll pay_to timeout r rails h.1 route in
    let known = h.0.known in ground (arith, known, rest)

-- A configuration that has passed Payments.validate makes, under each of its rules, one offer for each
-- of its rails, in the order of the rails: no rail is left out for want of a price.
pub validate_payments-OffersAll :
    (pl : Platform) (p q : Payments) (pay_to : Str) (timeout : ℕ)
    → validate_payments pl p ≡ ok q
    → All (OffersAll pay_to timeout q.rails) q.rules
validate_payments-OffersAll pl p q pay_to timeout h =
    All-map (λ r. priced-OffersAll pay_to timeout r q.rails) q.rules
      (validate_payments-Prices pl p q h)
