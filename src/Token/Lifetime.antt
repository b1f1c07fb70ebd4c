-- ===== src/Token/Lifetime.antt =====
-- The method validate of Pass: the closed variants that a signed pass may have.
use anteroom.Common.{◌≡◌, ◌≢◌, ◌↔◌, ◌⊎◌, inl, inr, none, [], pos, ◌≤ℤ◌, ◌<ℤ◌, arith}
use anteroom.Common.Text.{text, str_eq_iff}
use anteroom.Token.{Pass, validate, validate_kind, root_at, kind_pow, kind_paid, scope_all}

-- A proof-of-work pass: site-wide, bound to a network and to a browser, with no settlement.
pub record IsPow (p : Pass) : Type 0 where
  pub kind : p.kind ≡ kind_pow
  pub scope : p.scope ≡ scope_all
  pub bound : p.ipp ≢ []
  pub agent : p.uah ≢ []
  pub no_payer : p.payer ≡ []
  pub no_tx : p.tx ≡ []

-- A paid pass: bound to one purchased scope, and never the root or a link of a renewal chain.
pub record IsPaid (p : Pass) : Type 0 where
  pub kind : p.kind ≡ kind_paid
  pub scope : p.scope ≢ scope_all
  pub unbound : p.ipp ≡ []
  pub no_agent : p.uah ≡ []
  pub no_root : p.rt ≡ pos 0

pub record IsWellFormed (p : Pass) : Type 0 where
  pub has_aud : p.aud ≢ []
  pub has_scope : p.scope ≢ []
  pub starts : pos 0 <ℤ p.iat
  pub ends : p.iat <ℤ p.exp
  pub root_low : pos 0 ≤ℤ p.rt
  pub root_high : p.rt ≤ℤ p.iat
  pub variant : IsPow p ⊎ IsPaid p

kinds_differ : kind_pow ≢ kind_paid
unfolding text
kinds_differ e = ground arith

validate_kind_sound : (p : Pass) → validate_kind p ≡ none → IsPow p ⊎ IsPaid p
unfolding validate_kind
validate_kind_sound p h =
    ground
      (arith, str_eq_iff p.kind kind_pow, str_eq_iff p.kind kind_paid, str_eq_iff p.scope scope_all)

validate_kind_complete : (p : Pass) → IsPow p ⊎ IsPaid p → validate_kind p ≡ none
unfolding validate_kind
validate_kind_complete p (inl w) = ground (
  arith,
  kinds_differ,
  str_eq_iff p.kind kind_pow,
  str_eq_iff p.kind kind_paid,
  str_eq_iff p.scope scope_all,
)
validate_kind_complete p (inr w) = ground (
  arith,
  kinds_differ,
  str_eq_iff p.kind kind_pow,
  str_eq_iff p.kind kind_paid,
  str_eq_iff p.scope scope_all,
)

-- A pass passes `validate` exactly when it has an audience and a scope, when
-- 0 < iat < exp and 0 ≤ rt ≤ iat, and when its fields are those of a proof-of-work pass or those of
-- a paid pass.
pub validate_iff : (p : Pass) → (validate p ≡ none) ↔ IsWellFormed p
unfolding validate
validate_iff p = (
  λ h. ground (arith, validate_kind_sound p),
  λ w. ground (arith, w.variant, validate_kind_complete p),
)

-- A well-formed pass descends from an admission that is not later than its own issue.
pub root_at_bounds :
    (p : Pass)
    → validate p ≡ none
    → (pos 0 <ℤ root_at p) × (root_at p ≤ℤ p.iat) × (root_at p <ℤ p.exp)
unfolding root_at
root_at_bounds p h =
    let w = (validate_iff p).0 h in ground (arith, w.starts, w.ends, w.root_low, w.root_high)
