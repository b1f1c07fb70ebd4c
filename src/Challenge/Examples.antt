-- ===== src/Challenge/Examples.antt =====
-- A fleet of two keys, and the theorems of challenges on it.
use anteroom.Common.{
  ◌+◌, ◌*◌, ◌≡◌, refl, true, false, some, [], ◌∷◌, ◌++◌, length, any, arith, pos, int64, second,
  unix,
}
use anteroom.Common.Text.{Str, text, str_eq}
use anteroom.Common.Result.{ok}
use anteroom.Challenge.{
  Crypto, Profile, validate, big_endian, from_bytes, uint64, parse_profile, mac, issue,
  authenticate, is_stale, verify, below, check_pow,
}
use anteroom.Challenge.Bytes.{encoded}
use anteroom.Challenge.Issuing.{IsCodec, IsSound, Fits, verify-issue, verify-IsSound}

abbrev zeros : Str
zeros = 0 ∷ 0 ∷ 0 ∷ 0 ∷ 0 ∷ 0 ∷ 0 ∷ 0 ∷ 0 ∷ 0 ∷ 0 ∷ 0 ∷ 0 ∷ 0 ∷ 0 ∷ 0 ∷ []

-- A MAC of 32 bytes that depends on its key, and a base64 that leaves texts as they are.
abbrev tagged : Str → Str → Str
tagged [] s = zeros ++ zeros
tagged (k ∷ key) s = zeros ++ (k ∷ 0 ∷ 0 ∷ 0 ∷ 0 ∷ 0 ∷ 0 ∷ 0 ∷ 0 ∷ 0 ∷ 0 ∷ 0 ∷ 0 ∷ 0 ∷ 0 ∷ 0 ∷ [])

abbrev crypto : Crypto
crypto = record {
  hmac = tagged;
  sha256 = λ s. 0 ∷ 7 ∷ [];
  b64_encode = λ s. s;
  b64_decode = λ s. some s;
}

tagged-length : (key s : Str) → length (tagged key s) ≡ 32
tagged-length [] s = refl
tagged-length (k ∷ key) s = refl

codec : IsCodec crypto
codec = record { reads = λ s. refl; sized = tagged-length }

abbrev admit : Profile
admit = record { kind = 1; ttl = pos (600 * second); threshold = zeros ++ zeros }

allowed : validate admit ≡ true
unfolding validate
allowed = refl

admit_Fits : Fits admit
admit_Fits = record {
  nanoseconds = 600 * second;
  ttl = refl;
  small = omega arith;
  width = refl;
  allowed = allowed;
}

fresh : is_stale (1090 * second) (unix (1000 * second + 5) * second) admit ≡ false
unfolding is_stale
fresh = refl

-- The second key of the fleet signs.
verify-issue_example :
    (s : Str) × (issue crypto (2 ∷ []) (1000 * second + 5) (text "h") admit (some zeros)
      ≡ ok (s, 1000 * second))
    × (verify crypto ((1 ∷ []) ∷ (2 ∷ []) ∷ []) s (text "h") (1090 * second)
        ≡ ok (1000 * second, admit))
verify-issue_example =
    verify-issue crypto codec ((1 ∷ []) ∷ []) [] (2 ∷ []) (text "h") zeros (1000 * second + 5)
      (1090 * second) admit admit_Fits refl (omega arith) fresh

solves : check_pow crypto (text "c") (text "n") (0 ∷ 8 ∷ []) ≡ true
unfolding check_pow below
solves = refl

equal_fails : check_pow crypto (text "c") (text "n") (0 ∷ 7 ∷ []) ≡ false
unfolding check_pow below
equal_fails = refl

abbrev sent : Str
sent = ((big_endian 8 1000 ++ zeros) ++ encoded admit) ++ tagged (2 ∷ []) []

verifies :
    verify crypto ((1 ∷ []) ∷ (2 ∷ []) ∷ []) sent (text "h") (1090 * second)
    ≡ ok (1000 * second, admit)
unfolding verify authenticate mac parse_profile any big_endian from_bytes validate is_stale int64
    uint64 str_eq text
verifies = refl

verify-IsSound_example :
    IsSound crypto ((1 ∷ []) ∷ (2 ∷ []) ∷ []) sent (text "h") (1090 * second) (1000 * second) admit
verify-IsSound_example =
    verify-IsSound crypto ((1 ∷ []) ∷ (2 ∷ []) ∷ []) sent (text "h") (1090 * second) (1000 * second)
      admit verifies
