-- ===== src/Token.antt =====
-- internal/token/token.go: pass tokens, the keyring, minting and verification.
-- HMAC-SHA256, base64 and JSON come in through the record Crypto.
mod Variant
pub mod Rotation
pub mod Lifetime
pub mod Soundness
pub mod RoundTrip
pub mod Examples
unfoldable pub use Variant.*
use anteroom.Common.{
  ℕ, ◌+◌, ◌*◌, Bool, true, ◌||◌, not, Option, none, some, List, [], ◌∷◌, ◌++◌, ltb, leb, ltb_ℤ,
  leb_ℤ, eq_ℤ, pos, length, if◌then◌else◌, Time, second, unix,
}
use anteroom.Common.Text.{Str, text, str_eq, is_empty, cut}
use anteroom.Common.Result.{Result, ok, err, ◌>>=◌, ◌>>◌, guard, or_fail, unless_err}

-- What the package takes from crypto/hmac, encoding/base64 and encoding/json.
pub record Crypto : Type 0 where
  pub hmac : Str → Str → Str
  pub b64_encode : Str → Str
  pub b64_decode : Str → Option Str
  pub marshal : Pass → Str
  pub unmarshal : Str → Option Pass

pub record Key : Type 0 where
  pub kid : Str
  pub key : Str

-- The map `keys` is an association list without repeated key identifiers.
pub record Keyring : Type 0 where
  pub sign_kid : Str
  pub keys : List (Str × Str)

pub data KeyringError : Type 0 where
  no_keys weak_key duplicate_kid : KeyringError

unfoldable pub find_key : Str → List (Str × Str) → Option Str
find_key k [] = none
find_key k ((j, v) ∷ m) = if str_eq j k then some v else find_key k m

-- The loop of NewKeyring; `m` holds the keys that were added so far.
unfoldable pub add_keys : List Key → List (Str × Str) → Result KeyringError (List (Str × Str))
unfolding find_key
add_keys [] m = ok m
add_keys (k ∷ ks) m =
    let rest = add_keys ks (m ++ (k.kid, k.key) ∷ []) in
    if is_empty k.kid || ltb (length k.key) 16
    then err weak_key
    else elim (find_key k.kid m) [ some old ↦ err duplicate_kid | none ↦ rest ]

unfoldable pub new_keyring : List Key → Result KeyringError Keyring
new_keyring [] = err no_keys
new_keyring (k ∷ ks) = do m ← add_keys (k ∷ ks) []; ok (record { sign_kid = k.kid; keys = m })

pub data Error : Type 0 where
  malformed unknown_kid bad_signature expired from_future : Error
  invalid_pass : Invalid → Error

abbrev pub domain : Str
domain = text "anteroom-pass-v0."

abbrev pub clock_skew : ℕ
clock_skew = 60 * second

-- A Go map answers a missing key with the zero value.
unfoldable pub signing_key : Keyring → Str
signing_key kr = elim (find_key kr.sign_kid kr.keys) [ some k ↦ k | none ↦ [] ]

module _ (c : Crypto) where
  unfoldable pub tag : Str → Str → Str
  tag key payload = c.hmac key (domain ++ payload)

  unfoldable pub mint : Keyring → Pass → Result Error Str
  unfolding tag signing_key
  mint kr p = elim (validate p) [
    | some why ↦ err (invalid_pass why)
    | none ↦
        let stamped : Pass = record p { v = pos version; kid = kr.sign_kid } in
        let payload : Str = c.marshal stamped in
        ok (c.b64_encode payload ++ b'.' ∷ c.b64_encode (tag (signing_key kr) payload))
  ]

  unfoldable pub verify : Keyring → Str → Time → Result Error Pass
  unfolding tag find_key
  verify kr s now = do
    parts ← or_fail (cut b'.' s) malformed
    payload ← or_fail (c.b64_decode parts.0) malformed
    got ← or_fail (c.b64_decode parts.1) malformed
    p ← or_fail (c.unmarshal payload) malformed
    guard (eq_ℤ p.v (pos version)) malformed
    key ← or_fail (find_key p.kid kr.keys) unknown_kid
    guard (str_eq got (tag key payload)) bad_signature
    unless_err (validate p) malformed
    guard (ltb_ℤ (pos (unix now)) p.exp) expired
    guard (leb_ℤ p.iat (pos (unix (now + clock_skew)))) from_future
    ok p
