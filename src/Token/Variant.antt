-- ===== src/Token/Variant.antt =====
-- The pass, its kinds and its closed variants (the type Pass and its methods in token.go).
use anteroom.Common.{ℕ, ◌||◌, not, Option, none, some, ℤ, pos, ltb_ℤ, leb_ℤ, is_zero, if◌then◌else◌}
use anteroom.Common.Text.{Str, text, str_eq, is_empty}

abbrev pub version : ℕ
version = 1

-- Kind is a string type in the source, so that a decoded pass may hold any text.
abbrev pub kind_pow : Str
kind_pow = text "pow"

abbrev pub kind_paid : Str
kind_paid = text "paid"

abbrev pub scope_all : Str
scope_all = text "*"

pub record Pass : Type 0 where
  pub v : ℤ
  pub kid : Str
  pub kind : Str
  pub scope : Str
  pub aud : Str
  pub iat : ℤ
  pub exp : ℤ
  pub ipp : Str
  pub uah : Str
  pub rt : ℤ
  pub payer : Str
  pub tx : Str

-- RootAt, in seconds.
unfoldable pub root_at : Pass → ℤ
root_at p = if is_zero p.rt then p.iat else p.rt

pub data Invalid : Type 0 where
  missing_audience_or_scope invalid_lifetime invalid_root invalid_pow invalid_paid : Invalid
  unknown_kind : Invalid

unfoldable pub validate_kind : Pass → Option Invalid
validate_kind p =
    if str_eq p.kind kind_pow
    then (if not (str_eq p.scope scope_all)
          || (is_empty p.ipp || (is_empty p.uah || (not (is_empty p.payer) || not (is_empty p.tx))))
        then some invalid_pow
        else none)
    else if str_eq p.kind kind_paid
    then (if str_eq p.scope scope_all
          || (not (is_empty p.ipp) || (not (is_empty p.uah) || not (is_zero p.rt)))
        then some invalid_paid
        else none)
    else some unknown_kind

-- `none` is the nil error.
unfoldable pub validate : Pass → Option Invalid
unfolding validate_kind
validate p =
    if is_empty p.aud || is_empty p.scope
    then some missing_audience_or_scope
    else if leb_ℤ p.iat (pos 0) || leb_ℤ p.exp p.iat
    then some invalid_lifetime
    else if ltb_ℤ p.rt (pos 0) || ltb_ℤ p.iat p.rt
    then some invalid_root
    else validate_kind p
