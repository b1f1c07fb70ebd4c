-- ===== src/Token/Examples.antt =====
-- Tests of the token package, and its theorems at concrete passes.
use anteroom.Common.{
  ◌+◌, ◌-◌, ◌*◌, ◌≡◌, refl, ◌≢◌, none, some, [], ◌∷◌, ◌++◌, map, pos, All, arith, second, ◌<ℤ◌,
  ◌≤ℤ◌,
}
use anteroom.Common.Text.{Str, text, str_eq, cut}
use anteroom.Common.Result.{ok, err}
use anteroom.Token.{
  Crypto, Pass, Key, Keyring, expired, find_key, add_keys, new_keyring, mint, verify, validate,
  kind_pow, scope_all, root_at, duplicate_kid,
}
use anteroom.Token.Lifetime.{root_at_bounds}
use anteroom.Token.Rotation.{Covers, Covers-rotated}
use anteroom.Token.Soundness.{Accepts, verify-eq-ok_iff}
use anteroom.Token.RoundTrip.{Encodes, verify-mint}

abbrev pass : Pass
pass = record {
  v = pos 1;
  kid = text "k1";
  kind = kind_pow;
  scope = scope_all;
  aud = text "a";
  iat = pos 100;
  exp = pos 400;
  ipp = text "n";
  uah = text "u";
  rt = pos 90;
  payer = [];
  tx = [];
}

-- An encoding that shifts bytes past the dot, and a tag that holds the key and the message.
abbrev shift : Str → Str
shift = map (λ b. b + 100)

abbrev toy : Crypto
toy = record {
  hmac = λ k m. k ++ m;
  b64_encode = shift;
  b64_decode = λ s. some (map (λ b. b - 100) s);
  marshal = λ p. 7 ∷ [];
  unmarshal = λ s. some pass;
}

unshift : (x : Str) → map (λ b. b - 100) (shift x) ≡ x
unshift [] = refl
unshift (b ∷ x) = ground (arith, unshift x)

shift_dotless : (x : Str) → All (λ b. b ≢ b'.') (shift x)
shift_dotless [] = tt
shift_dotless (b ∷ x) = (omega arith, shift_dotless x)

toy-Encodes : Encodes toy
toy-Encodes = record { decode-encode = λ x. rw (unshift x); no_dot = shift_dotless }

abbrev key_one : Key
key_one = record { kid = text "k1"; key = text "0123456789abcdef" }

abbrev key_two : Key
key_two = record { kid = text "k2"; key = text "fedcba9876543210" }

abbrev ring : Keyring
ring = record { sign_kid = text "k1"; keys = (text "k1", text "0123456789abcdef") ∷ [] }

abbrev rotated : Keyring
rotated = record {
  sign_kid = text "k2";
  keys = (text "k2", text "fedcba9876543210") ∷ (text "k1", text "0123456789abcdef") ∷ [];
}

ring_built : new_keyring (key_one ∷ []) ≡ ok ring
unfolding new_keyring add_keys find_key text str_eq
ring_built = refl

rotated_built : new_keyring (key_two ∷ key_one ∷ []) ≡ ok rotated
unfolding new_keyring add_keys find_key text str_eq
rotated_built = refl

twice_refused : new_keyring (key_one ∷ key_one ∷ []) ≡ err duplicate_kid
unfolding new_keyring add_keys find_key text str_eq
twice_refused = refl

pass_valid : validate pass ≡ none
unfolding validate text str_eq
pass_valid = refl

root_at_bounds_example :
    (pos 0 <ℤ root_at pass) × (root_at pass ≤ℤ pos 100) × (root_at pass <ℤ pos 400)
root_at_bounds_example = root_at_bounds pass pass_valid

ring_covered : Covers ring rotated
ring_covered = Covers-rotated key_one [] (key_two ∷ []) [] ring rotated ring_built rotated_built

abbrev cookie : Str
cookie =
    shift (7 ∷ []) ++ b'.' ∷ shift (text "0123456789abcdef" ++ text "anteroom-pass-v0." ++ 7 ∷ [])

minted : mint toy ring pass ≡ ok cookie
unfolding mint find_key validate text str_eq
minted = refl

verify-mint_example : verify toy rotated cookie (200 * second) ≡ ok pass
verify-mint_example =
    verify-mint toy toy-Encodes ring rotated pass cookie (200 * second) minted ring_covered refl
      (omega arith) (omega arith)

verify-eq-ok_iff_example : Accepts toy rotated cookie (200 * second) pass
verify-eq-ok_iff_example =
    (verify-eq-ok_iff toy rotated cookie (200 * second) pass).0 verify-mint_example

lapsed : verify toy rotated cookie (400 * second) ≡ err expired
unfolding verify cut find_key validate text str_eq
lapsed = refl
