-- ===== src/Challenge/Issuing.antt =====
-- Issue and Verify: a challenge of any instance of the fleet is verified by any other.
use anteroom.Common.{
  ℕ, ◌*◌, ◌^◌, ◌≡◌, refl, sym, ◌∙◌, ap, ◌<◌, ◌≤◌, ◌+◌, ◌⊎◌, inl, inr, subst, Bool-cases, pos_part,
  int64, Bool, true, false, not, some, List, [], ◌∷◌, ◌++◌, ◌==◌, length, take, drop, any,
  length-append, arith, pos, Time, second, unix, ==_iff,
}
use mathlib.Core.List.{append_assoc}
use anteroom.Common.Text.{Str, text, str_eq, str_eq_refl}
use anteroom.Common.Result.{ok, bind-ok, guard-ok, or_fail-ok}
use anteroom.Challenge.{
  Crypto, Profile, validate, big_endian, from_bytes, append_profile, uint64, parse_profile, mac,
  issue, authenticate, is_stale, verify, raw_len, domain, profile_error, stale, malformed, bad_mac,
}
use anteroom.Challenge.Bytes.{
  encoded, length-big_endian, from_bytes-big_endian, parse_profile-encoded, take-at, drop-at,
}

-- The laws of the packages: base64 is read back, and a MAC has 32 bytes.
pub record IsCodec (c : Crypto) : Type 0 where
  pub reads : (s : Str) → c.b64_decode (c.b64_encode s) ≡ some s
  pub sized : (key s : Str) → length (c.hmac key s) ≡ 32

-- A profile that fits its encoding.
pub record Fits (p : Profile) : Type 0 where
  pub nanoseconds : ℕ
  pub ttl : p.ttl ≡ pos nanoseconds
  pub small : nanoseconds < 2 ^ 63
  pub width : length p.threshold ≡ 32
  pub allowed : validate p ≡ true

any-split :
    {A : Type 0} (f : A → Bool) (before after : List A) (x : A)
    → f x ≡ true
    → any f (before ++ x ∷ after) ≡ true
unfolding any
any-split f [] after x h = ground arith
any-split f (b ∷ before) after x h = ground (arith, any-split f before after x h)

length-mac : (c : Crypto) → IsCodec c → (key s audience : Str) → length (mac c key s audience) ≡ 32
unfolding mac
length-mac c laws key s audience = laws.sized key (domain ++ (s ++ (0 ∷ audience)))

-- The signed part of a challenge.
abbrev pub body : ℕ → Str → Profile → Str
body n r p = (big_endian 8 n ++ r) ++ encoded p

module _ (c : Crypto) (laws : IsCodec c) (n : ℕ) (r : Str) (p : Profile) (fits : Fits p)
    (r16 : length r ≡ 16) (n8 : n < 256 ^ 8) where
  length-stamp : length (big_endian 8 n ++ r) ≡ 24
  length-stamp = omega (arith, length-append (big_endian 8 n) r, length-big_endian 8 n, r16)

  length-encoded : length (encoded p) ≡ 42
  length-encoded = omega (
    arith,
    length-append (big_endian 8 (uint64 p.ttl)) p.threshold,
    length-big_endian 8 (uint64 p.ttl),
    fits.width,
  )

  length-body : length (body n r p) ≡ 66
  length-body =
      omega (arith, length-append (big_endian 8 n ++ r) (encoded p), length-stamp, length-encoded)

  take8 : (m : Str) → take 8 (body n r p ++ m) ≡ big_endian 8 n
  take8 m =
      rw
        (
          append_assoc (big_endian 8 n ++ r) (encoded p) m,
          append_assoc (big_endian 8 n) r (encoded p ++ m),
        )
        (take-at 8 (big_endian 8 n) (r ++ (encoded p ++ m)) (length-big_endian 8 n))

  authenticate_made :
      (before after : List Str) (key audience : Str)
      → authenticate c
          (before ++ key ∷ after)
          (c.b64_encode (body n r p ++ mac c key (body n r p) audience))
          audience
        ≡ ok (n * second, p)
  unfolding authenticate
  authenticate_made before after key audience =
      let m = mac c key (body n r p) audience in
      let sized : length m ≡ 32 = length-mac c laws key (body n r p) audience in
      let long = length-append (body n r p) m in
      let front = take-at 66 (body n r p) m length-body in
      let back = drop-at 66 (body n r p) m length-body in
      let inner = drop-at 24 (big_endian 8 n ++ r) (encoded p) length-stamp in
      let parsed =
        parse_profile-encoded p fits.nanoseconds fits.ttl fits.small fits.width fits.allowed in
      let time = take8 m in
      let number = from_bytes-big_endian 8 n n8 in
      let known =
        any-split (λ k. str_eq m (mac c k (body n r p) audience)) before after key
          (str_eq_refl m) in
      let whole : length (body n r p ++ m) ≡ 98 = omega (arith, long, sized, length-body) in
      rw (laws.reads (body n r p ++ m), front, back, inner, parsed, time, number, known, whole) refl

-- A challenge that one instance issues is verified by every instance that knows its key, with the time
-- and the profile it was issued with, until it is stale. The codec has to be sound, the entropy of 16
-- bytes, the time in range and the profile one that fits its encoding.
pub verify-issue :
    (c : Crypto)
    → IsCodec c
    → (before after : List Str) (key audience r : Str) (now later : Time) (p : Profile) → Fits p
    → length r ≡ 16
    → unix now < 256 ^ 8
    → is_stale later (unix now * second) p ≡ false
    → (s : Str) × (issue c key now audience p (some r) ≡ ok (s, unix now * second))
      × (verify c (before ++ key ∷ after) s audience later ≡ ok (unix now * second, p))
unfolding issue verify append_profile
verify-issue c laws before after key audience r now later p fits r16 n8 fresh =
    let b = body (unix now) r p in
    let made = authenticate_made c laws (unix now) r p fits r16 n8 before after key audience in
    (
      c.b64_encode (b ++ mac c key b audience),
      ground (arith, fits.allowed),
      rw made (ground (arith, fresh)),
    )

-- What a challenge that is accepted says of itself and of its time.
pub record IsSound (c : Crypto) (keys : List Str) (s audience : Str) (now t : Time) (p : Profile)
    : Type 0 where
  pub raw : Str
  pub decoded : c.b64_decode s ≡ some raw
  pub long : length raw ≡ 98
  pub signed :
      any
        (λ k.
          str_eq
            (drop 66 raw)
            (c.hmac k (text "anteroom-challenge-v2." ++ (take 66 raw ++ (0 ∷ audience)))))
        keys
      ≡ true
  pub time : t ≡ from_bytes 0 (take 8 raw) * second
  pub encoded :
      (rest : Str) × (drop 24 (take 66 raw) ≡ 1 ∷ p.kind ∷ rest)
      × (p.ttl ≡ int64 (from_bytes 0 (take 8 rest)))
      × (p.threshold ≡ drop 8 rest)
  pub kinds : (p.kind ≡ 1) ⊎ (p.kind ≡ 2)
  pub lives : 0 < pos_part p.ttl
  pub fresh : now ≤ t + pos_part p.ttl
  pub past : t ≤ now + 60 * second

parse_profile-reads :
    (raw : Str) (p : Profile)
    → parse_profile raw ≡ some p
    → ((rest : Str) × (raw ≡ 1 ∷ p.kind ∷ rest)
        × (p.ttl ≡ int64 (from_bytes 0 (take 8 rest)))
        × (p.threshold ≡ drop 8 rest))
      × ((p.kind ≡ 1) ⊎ (p.kind ≡ 2))
      × (0 < pos_part p.ttl)
unfolding parse_profile validate
parse_profile-reads [] p h = absurd (ground arith)
parse_profile-reads (v ∷ []) p h = absurd (ground arith)
parse_profile-reads (v ∷ k ∷ rest) p h =
    let q : Profile = record {
      kind = k;
      ttl = int64 (from_bytes 0 (take 8 rest));
      threshold = drop 8 rest;
    } in
    let same : q ≡ p = ground arith in
    let one : v ≡ 1 = ground arith in
    let bits : (k ≡ 1) ⊎ (k ≡ 2) = elim (Bool-cases (k == 1)) [
      | inl a ↦ inl ((==_iff k 1).0 a)
      | inr a ↦ inr (ground (arith, a))
    ] in
    let lives : 0 < pos_part q.ttl = ground arith in
    (
      (
        rest,
        ap (λ x. x ∷ k ∷ rest) one ∙ ap (λ x. 1 ∷ x.kind ∷ rest) same,
        sym (ap (λ x. x.ttl) same),
        sym (ap (λ x. x.threshold) same),
      ),
      subst (λ x. (x.kind ≡ 1) ⊎ (x.kind ≡ 2)) same bits,
      subst (λ x. 0 < pos_part x.ttl) same lives,
    )

is_stale-bounds :
    (now t : Time) (p : Profile)
    → is_stale now t p ≡ false
    → (now ≤ t + pos_part p.ttl) × (t ≤ now + 60 * second)
unfolding is_stale
is_stale-bounds now t p h = (ground arith, ground arith)

not-true : (b : Bool) → not b ≡ true → b ≡ false
not-true true h = absurd (ground arith)
not-true false h = refl

signed_domain :
    (c : Crypto) (keys : List Str) (raw audience : Str)
    → any (λ k. str_eq (drop 66 raw) (mac c k (take 66 raw) audience)) keys ≡ true
    → any
        (λ k.
          str_eq
            (drop 66 raw)
            (c.hmac k (text "anteroom-challenge-v2." ++ (take 66 raw ++ (0 ∷ audience)))))
        keys
      ≡ true
unfolding mac
signed_domain c keys raw audience h = h

-- What verification accepts carries the MAC of a known key, over its time, its profile and this
-- authority; its profile is one of the two kinds and has a lifetime; and it was issued at most that
-- lifetime ago, and at most a minute ahead of this clock.
pub verify-IsSound :
    (c : Crypto) (keys : List Str) (s audience : Str) (now t : Time) (p : Profile)
    → verify c keys s audience now ≡ ok (t, p)
    → IsSound c keys s audience now t p
unfolding verify authenticate
verify-IsSound c keys s audience now t p h =
    let (found, a, h0) = bind-ok (authenticate c keys s audience) _ h in
    let (fresh, same) = guard-ok (not (is_stale now found.0 found.1)) stale _ h0 in
    let (raw, e, h1) = or_fail-ok (c.b64_decode s) malformed _ a in
    let (long, h2) = guard-ok (length raw == raw_len) malformed _ h1 in
    let (known, h3) =
      guard-ok (any (λ k. str_eq (drop 66 raw) (mac c k (take 66 raw) audience)) keys) bad_mac _
        h2 in
    let (q, f, h4) = or_fail-ok (parse_profile (drop 24 (take 66 raw))) profile_error _ h3 in
    let wanted : Time × Profile = (t, p) in
    let read : Time × Profile = (from_bytes 0 (take 8 raw) * second, q) in
    let first : found ≡ wanted = cc in
    let made : read ≡ wanted = cc in
    let (reads, kinds, lives) =
      parse_profile-reads (drop 24 (take 66 raw)) p (f ∙ ap (λ x. some x.1) made) in
    let (soon, past) = is_stale-bounds now t p (
      ap (λ x. is_stale now x.0 x.1) (sym first) ∙ not-true (is_stale now found.0 found.1) fresh) in
    record {
      raw = raw;
      decoded = e;
      long = (==_iff (length raw) 98).0 long;
      signed = signed_domain c keys raw audience known;
      time = ap (λ x. x.0) (sym made);
      encoded = reads;
      kinds = kinds;
      lives = lives;
      fresh = soon;
      past = past;
    }
