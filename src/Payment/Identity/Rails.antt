-- ===== src/Payment/Identity/Rails.antt =====
-- MatchRail: a payment is on the first offered rail of its network and scheme, at its terms.
use anteroom.Common.{
  ◌≡◌, sym, subst, ◌∙◌, ◌≢◌, ◌↔◌, ◌⊎◌, inl, inr, true, ◌&&◌, List, [], ◌∷◌, ◌++◌, arith, All,
  Bool-cases,
}
use anteroom.Common.Text.{str_eq, str_eq_iff, equal_fold}
use anteroom.Common.Result.{ok}
use anteroom.Payment.Wire.{Requirements, Payload}
use anteroom.Payment.Identity.{check_terms, match_rail}

-- The rail is not the one that the payment names.
abbrev pub IsOther : Payload → Requirements → Type 0
IsOther p r = (r.network ≢ p.accepted.network) ⊎ (r.scheme ≢ p.accepted.scheme)

-- What the gate forwards: the first offered rail of that name, which the client echoed rightly.
pub record IsOffered (p : Payload) (rails : List Requirements) (r : Requirements) : Type 0 where
  pub before : List Requirements
  pub after : List Requirements
  pub split : rails ≡ before ++ r ∷ after
  pub others : All (IsOther p) before
  pub network : r.network ≡ p.accepted.network
  pub scheme : r.scheme ≡ p.accepted.scheme
  pub asset : equal_fold r.asset p.accepted.asset ≡ true
  pub amount : r.amount ≡ p.accepted.amount
  pub pay_to : equal_fold r.pay_to p.accepted.pay_to ≡ true

check_terms-eq-ok :
    (r s : Requirements) (p : Payload)
    → check_terms r p ≡ ok s
    → (r ≡ s)
      × (equal_fold r.asset p.accepted.asset ≡ true)
      × (r.amount ≡ p.accepted.amount)
      × (equal_fold r.pay_to p.accepted.pay_to ≡ true)
unfolding check_terms
check_terms-eq-ok r s p h = ground (arith, str_eq_iff r.amount p.accepted.amount)

check_terms_complete :
    (r : Requirements) (p : Payload)
    → equal_fold r.asset p.accepted.asset ≡ true
    → r.amount ≡ p.accepted.amount
    → equal_fold r.pay_to p.accepted.pay_to ≡ true
    → check_terms r p ≡ ok r
unfolding check_terms
check_terms_complete r p a m t = ground (arith, str_eq_iff r.amount p.accepted.amount)

module _ (p : Payload) where
  match_rail_sound :
      (rails : List Requirements) (s : Requirements)
      → match_rail p rails ≡ ok s
      → IsOffered p rails s
  unfolding match_rail
  match_rail_sound [] s h = absurd (ground arith)
  match_rail_sound (r ∷ rails) s h =
      elim (Bool-cases (str_eq r.network p.accepted.network && str_eq r.scheme p.accepted.scheme)) [
        | inl e ↦
            let (same, asset, amount, pay_to) = check_terms-eq-ok r s p (ground (arith, e)) in
            record {
              before = [];
              after = rails;
              split = ground (arith, same);
              others = tt;
              network = ground (arith, str_eq_iff r.network p.accepted.network);
              scheme = ground (arith, str_eq_iff r.scheme p.accepted.scheme);
              asset = ground arith;
              amount = ground arith;
              pay_to = ground arith;
            }
        | inr e ↦
            let rest = match_rail_sound rails s (ground (arith, e)) in
            record {
              before = r ∷ rest.before;
              after = rest.after;
              split = ground (arith, rest.split);
              others = (
                ground (
                  arith,
                  str_eq_iff r.network p.accepted.network,
                  str_eq_iff r.scheme p.accepted.scheme,
                ),
                rest.others,
              );
              network = rest.network;
              scheme = rest.scheme;
              asset = rest.asset;
              amount = rest.amount;
              pay_to = rest.pay_to;
            }
      ]

  match_rail_complete :
      (before after : List Requirements) (r : Requirements)
      → All (IsOther p) before
      → r.network ≡ p.accepted.network
      → r.scheme ≡ p.accepted.scheme
      → match_rail p (before ++ r ∷ after) ≡ check_terms r p
  unfolding match_rail
  match_rail_complete [] after r o n s =
      ground (arith, str_eq_iff r.network p.accepted.network, str_eq_iff r.scheme p.accepted.scheme)
  match_rail_complete (b ∷ before) after r o n s =
      let rest = match_rail_complete before after r o.1 n s in
      ground
        (arith, o.0, str_eq_iff b.network p.accepted.network, str_eq_iff b.scheme p.accepted.scheme)

-- A payment matches an offer exactly as the first offered rail of its network and scheme, whose asset
-- and recipient it echoes up to case and whose amount it echoes literally; the match is the gate's own
-- rail.
pub match_rail_iff :
    (p : Payload) (rails : List Requirements) (r : Requirements)
    → (match_rail p rails ≡ ok r) ↔ IsOffered p rails r
match_rail_iff p rails r = (
  match_rail_sound p rails r,
  λ o.
      subst (λ l. match_rail p l ≡ ok r) (sym o.split)
        (match_rail_complete p o.before o.after r o.others o.network o.scheme
          ∙ check_terms_complete r p o.asset o.amount o.pay_to),
)
