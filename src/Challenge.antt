-- ===== src/Challenge.antt =====
-- internal/challenge/challenge.go: stateless proof-of-work challenges. HMAC, SHA-256 and base64 come
-- in through the record Crypto; the conversion of a difficulty to a threshold is not modelled.
pub mod Bytes
pub mod Issuing
pub mod Threshold
pub mod Examples
use anteroom.Common.{
  ℕ, zero, suc, ◌+◌, ◌-◌, ◌*◌, ◌/◌, ◌%◌, ◌^◌, Bool, true, false, ◌&&◌, ◌||◌, not, Option, none,
  some, List, [], ◌∷◌, ◌++◌, ltb, leb, ◌==◌, if◌then◌else◌, length, take, drop, any, Time, second,
  unix, ℤ, pos, negsuc, int64, leb_ℤ,
}
use anteroom.Common.Text.{Str, text, str_eq}
use anteroom.Common.Result.{Result, ok, err, ◌>>=◌, ◌>>◌, guard, or_fail}

-- What the package takes from crypto/hmac, crypto/sha256 and encoding/base64.
pub record Crypto : Type 0 where
  pub hmac : Str → Str → Str
  pub sha256 : Str → Str
  pub b64_encode : Str → Str
  pub b64_decode : Str → Option Str

abbrev pub domain : Str
domain = text "anteroom-challenge-v2."

abbrev pub profile_len : ℕ
profile_len = 42

abbrev pub body_len : ℕ
body_len = 66

abbrev pub raw_len : ℕ
raw_len = 98

abbrev pub skew : ℕ
skew = 60 * second

pub data Error : Type 0 where
  malformed bad_mac stale profile_error wrong_pow no_entropy : Error

-- Kind is a byte: 1 for an admission, 2 for a renewal.
abbrev pub kind_admit : ℕ
kind_admit = 1

abbrev pub kind_renew : ℕ
kind_renew = 2

pub record Profile : Type 0 where
  pub kind : ℕ
  pub ttl : ℤ
  pub threshold : Str

-- validate, where `true` is the nil error.
unfoldable pub validate : Profile → Bool
validate p = (p.kind == kind_admit || p.kind == kind_renew) && not (leb_ℤ p.ttl (pos 0))

-- The last n bytes of a number, the most significant one first: AppendUint64 at n = 8.
unfoldable pub big_endian : ℕ → ℕ → Str
big_endian zero u = []
big_endian (suc n) u = big_endian n (u / 256) ++ u % 256 ∷ []

-- BigEndian.Uint64, over all the bytes that it is given.
unfoldable pub from_bytes : ℕ → Str → ℕ
from_bytes acc [] = acc
from_bytes acc (b ∷ s) = from_bytes (acc * 256 + b) s

-- `uint64(x)` of an int64.
unfoldable pub uint64 : ℤ → ℕ
uint64 (pos n) = n
uint64 (negsuc n) = 2 ^ 64 - 1 - n

-- appendProfile
unfoldable pub append_profile : Str → Profile → Str
append_profile dst p = dst ++ (1 ∷ p.kind ∷ big_endian 8 (uint64 p.ttl) ++ p.threshold)

-- parseProfile, on a text of the profile's length.
unfoldable pub parse_profile : Str → Option Profile
parse_profile (v ∷ k ∷ rest) =
    let p : Profile = record {
      kind = k;
      ttl = int64 (from_bytes 0 (take 8 rest));
      threshold = drop 8 rest;
    } in
    if not (length rest == 40) || not (v == 1) then none else if validate p then some p else none
parse_profile raw = none

-- now.Sub(ts) > profile.TTL || ts.Sub(now) > skew
unfoldable pub is_stale : Time → Time → Profile → Bool
is_stale now ts p = not (leb_ℤ (pos (now - ts)) p.ttl) || ltb skew (ts - now)

-- The loop of CheckPoW over the bytes of the hash.
unfoldable pub below : Str → Str → Bool
below (h ∷ hs) (t ∷ ts) = if ltb h t then true else if ltb t h then false else below hs ts
below hs ts = false

-- The issuer's keys: the first one signs.
module _ (c : Crypto) where
  -- mac
  unfoldable pub mac : Str → Str → Str → Str
  mac key body audience = c.hmac key (domain ++ (body ++ (0 ∷ audience)))

  -- Issue, with the entropy that it draws; NewIssuer leaves no issuer without a key.
  unfoldable pub issue : Str → Time → Str → Profile → Option Str → Result Error (Str × Time)
  unfolding validate append_profile big_endian mac
  issue key now audience p entropy = do
    guard (validate p) profile_error
    r ← or_fail entropy no_entropy
    let body = append_profile (big_endian 8 (unix now) ++ r) p
    ok (c.b64_encode (body ++ mac key body audience), unix now * second)

  -- Verify, up to the clock: the time of issue and the profile. An issuer stamps no time before 1970.
  unfoldable pub authenticate : List Str → Str → Str → Result Error (Time × Profile)
  authenticate keys s audience = do
    raw ← or_fail (c.b64_decode s) malformed
    guard (length raw == raw_len) malformed
    guard (any (λ k. str_eq (drop body_len raw) (mac k (take body_len raw) audience)) keys) bad_mac
    p ← or_fail (parse_profile (drop 24 (take body_len raw))) profile_error
    ok (from_bytes 0 (take 8 raw) * second, p)

  -- Verify
  unfoldable pub verify : List Str → Str → Str → Time → Result Error (Time × Profile)
  unfolding authenticate is_stale
  verify keys s audience now = do
    found ← authenticate keys s audience
    guard (not (is_stale now found.0 found.1)) stale
    ok found

  -- CheckPoW, where `true` is the nil error.
  unfoldable pub check_pow : Str → Str → Str → Bool
  unfolding below
  check_pow challenge nonce threshold = below (c.sha256 (challenge ++ nonce)) threshold
