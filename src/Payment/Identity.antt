-- ===== src/Payment/Identity.antt =====
-- internal/payment/verifier.go: what names a payment, and the match of a payment with the offer.
pub mod Integer
pub mod Naming
pub mod Rails
pub mod Examples
use anteroom.Common.{
  ℕ, ◌+◌, ◌-◌, ◌*◌, ◌/◌, ◌%◌, ◌^◌, ◌≡◌, Bool, true, false, ◌&&◌, ◌||◌, not, Option, none, some,
  List, [], ◌∷◌, ◌++◌, ltb, leb, ◌==◌, if◌then◌else◌, length, zero, suc,
}
use anteroom.Common.Text.{Str, text, is_empty, str_eq, equal_fold, to_lower, trim_space}
use anteroom.Common.Result.{Result, ok, err, ◌>>=◌, ◌>>◌, guard, or_fail}
use anteroom.Common.Map.{Map, lookup}
use anteroom.Payment.Wire.{Requirements, Payload, transfer_method}

-- A digit of base 10 or 16, as math/big reads it.
unfoldable pub digit : ℕ → ℕ → Option ℕ
digit base c =
    if leb b'0' c && leb c b'9'
    then some (c - b'0')
    else if base == 16 && (leb b'a' c && leb c b'f')
    then some (c - b'a' + 10)
    else if base == 16 && (leb b'A' c && leb c b'F')
    then some (c - b'A' + 10)
    else none

unfoldable pub digits_from : ℕ → ℕ → Str → Option ℕ
digits_from base n [] = some n
digits_from base n (c ∷ s) = elim (digit base c) [
  | none ↦ none
  | some d ↦ digits_from base (n * base + d) s
]

-- At least one digit.
unfoldable pub magnitude : ℕ → Str → Option ℕ
magnitude base s = if is_empty s then none else digits_from base 0 s

-- big.Int.SetString, where negative numbers other than -0 are left out: the caller refuses them.
unfoldable pub set_string : ℕ → Str → Option ℕ
set_string base [] = none
set_string base (c ∷ s) =
    if c == b'+'
    then magnitude base s
    else if c == b'-'
    then elim (magnitude base s) [ none ↦ none | some n ↦ if n == 0 then some 0 else none ]
    else magnitude base (c ∷ s)

-- The decimal digits of a number, the last one first; fuel for at most that many digits.
unfoldable pub decimals : ℕ → ℕ → Str
decimals zero n = []
decimals (suc fuel) n =
    let rest = decimals fuel (n / 10) in
    if ltb n 10 then (b'0' + n) ∷ [] else rest ++ (b'0' + n % 10) ∷ []

-- A number below 2 ^ 256 has at most 78 decimal digits.
unfoldable pub show : ℕ → Str
unfolding decimals
show n = decimals 78 n

-- The prefix of a hexadecimal number is cut off.
unfoldable pub base_of : Str → ℕ × Str
base_of (c ∷ x ∷ d ∷ t) =
    if c == b'0' && (x == b'x' || x == b'X') then (16, d ∷ t) else (10, c ∷ x ∷ d ∷ t)
base_of t = (10, t)

unfoldable pub read_integer : Str → Option ℕ
read_integer s =
    let (base, t) = base_of (trim_space s) in
    elim (set_string base t) [ none ↦ none | some n ↦ if ltb n (2 ^ 256) then some n else none ]

-- canonicalInteger
unfoldable pub canonical_integer : Str → Option Str
canonical_integer s = elim (read_integer s) [ none ↦ none | some n ↦ some (show n) ]

-- How JSON reads the scheme payload, and an authorization's `from` and `nonce` (empty if absent).
pub record AuthJson : Type 0 where
  pub fields : Str → Option (Map Str)
  pub identity : Str → Option (Str × Str)

pub record AuthIdentity : Type 0 where
  pub method : Str
  pub from : Str
  pub nonce : Str

pub data Unidentified : Type 0 where
  unsupported two_objects incomplete bad_nonce missing : Unidentified

abbrev pub permit2_key : Str
permit2_key = text "permit2Authorization"

abbrev pub eip3009_key : Str
eip3009_key = text "authorization"

-- authKeyFor; a Go map answers an unknown method with "".
unfoldable pub auth_key_for : Str → Str
auth_key_for method =
    if str_eq method (text "permit2")
    then permit2_key
    else if str_eq method (text "eip3009")
    then eip3009_key
    else []

abbrev has {ℓ} : {A : Type ℓ} → Option A → Bool
has none = false
has (some a) = true

-- The body of the loop, at the key of the server's method.
unfoldable pub selected : AuthJson → Str → Str → Result Unidentified (Option AuthIdentity)
selected j key raw = do
  a ← or_fail (j.identity raw) incomplete
  guard (not (is_empty a.0 || is_empty a.1)) incomplete
  nonce ← or_fail (canonical_integer a.1) bad_nonce
  ok (some (record { method = key; from = to_lower a.0; nonce = nonce }))

unfoldable pub at_key : AuthJson → Str → Map Str → Result Unidentified (Option AuthIdentity)
at_key j key obj = elim (lookup key obj) [ none ↦ ok none | some raw ↦ selected j key raw ]

-- authorization: `ok none` is (nil, nil).
unfoldable pub authorization : AuthJson → Str → Str → Result Unidentified (Option AuthIdentity)
authorization j payload method = elim (j.fields payload) [
  | none ↦ ok none
  | some obj ↦
      if has (lookup permit2_key obj) && has (lookup eip3009_key obj)
      then err two_objects
      else if str_eq permit2_key (auth_key_for method)
      then at_key j permit2_key obj
      else if str_eq eip3009_key (auth_key_for method)
      then at_key j eip3009_key obj
      else ok none
]

-- The list that ID hashes.
unfoldable pub identity_fields : Requirements → AuthIdentity → List Str
identity_fields req auth =
    text "anteroom/x402-payment/v1"
    ∷ req.scheme
    ∷ req.network
    ∷ to_lower req.asset
    ∷ auth.method
    ∷ auth.from
    ∷ auth.nonce
    ∷ []

-- ID; `digest` is the hexadecimal SHA-256 of the list's JSON.
unfoldable pub payment_id :
    AuthJson → (List Str → Str) → Payload → Requirements → Result Unidentified Str
payment_id j digest p req = do
  guard
      (str_eq req.scheme (text "exact")
        && (str_eq (transfer_method req) (text "eip3009")
            || str_eq (transfer_method req) (text "permit2")))
      unsupported
  found ← authorization j p.payload (transfer_method req)
  auth ← or_fail found missing
  ok (digest (identity_fields req auth))

pub data Mismatch : Type 0 where
  asset_differs amount_differs pay_to_differs no_rail : Mismatch

abbrev same_rail : Requirements → Payload → Bool
same_rail r p = str_eq r.network p.accepted.network && str_eq r.scheme p.accepted.scheme

-- The terms of the rail, in the order of the switch.
unfoldable pub check_terms : Requirements → Payload → Result Mismatch Requirements
check_terms r p = do
  guard (equal_fold r.asset p.accepted.asset) asset_differs
  guard (str_eq r.amount p.accepted.amount) amount_differs
  guard (equal_fold r.pay_to p.accepted.pay_to) pay_to_differs
  ok r

-- MatchRail
unfoldable pub match_rail : Payload → List Requirements → Result Mismatch Requirements
match_rail p [] = err no_rail
match_rail p (r ∷ rs) =
    let rest = match_rail p rs in if same_rail r p then check_terms r p else rest
