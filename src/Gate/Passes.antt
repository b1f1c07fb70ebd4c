-- ===== src/Gate/Passes.antt =====
-- internal/gate/gate.go: which pass a request carries, what it opens, and how passes are made.
pub mod Entitlement
use anteroom.Common.{
  ℕ, ◌+◌, ◌-◌, ◌*◌, ◌/◌, Bool, true, false, ◌&&◌, ◌||◌, not, Option, none, some, List, [], ◌∷◌,
  ◌++◌, leb, ltb, is_zero, eq_ℤ, ℤ, pos, pos_part, if◌then◌else◌, Time, Duration, second, unix,
  from_unix,
}
use anteroom.Common.Text.{Str, text, is_empty, str_eq, to_lower, trim_space, trim_suffix}
use anteroom.Common.Result.{Result, ok, err}
use anteroom.Net.{NetText, Addr, Prefix, is_6, masked}
use anteroom.Http.{Headers, Request, header}
use anteroom.Token.{
  Crypto, Keyring, Pass, Error, kind_pow, kind_paid, scope_all, root_at, verify, mint,
}
use anteroom.Bypass.{Matcher, match_path, client_ip, request_is_tls}

-- A compiled pricing rule: its path patterns, and the scope that a pass bought under it has.
pub record PaidRoute : Type 0 where
  pub matcher : Matcher
  pub scope : Str

-- What the gate's passes depend on; `cookies` is Request.Cookies and `ua_hash` the digest of a
-- User-Agent.
pub record Gate : Type 0 where
  pub net : NetText
  pub crypto : Crypto
  pub cookies : Headers → List (Str × Str)
  pub ua_hash : Str → Str
  pub match : Matcher
  pub keyring : Keyring
  pub routes : List PaidRoute
  pub max_session : Duration

abbrev pub cookie_name : Str
cookie_name = text "anteroom_pass"

-- normalizeAuthority
unfoldable pub normalize_authority : NetText → Str → Str
normalize_authority net value =
    let authority = to_lower (trim_space value) in
    elim (net.split_host_port authority) [
      | some (host, port) ↦ trim_suffix b'.' host ++ (text ":" ++ port)
      | none ↦ trim_suffix b'.' authority
    ]

-- requestAudience
unfoldable pub request_audience : NetText → Request → Str
request_audience net r = normalize_authority net r.host

-- matchRoute over the routes
unfoldable pub match_route : List PaidRoute → Str → Option PaidRoute
match_route [] path = none
match_route (t ∷ ts) path =
    let rest = match_route ts path in if match_path t.matcher path then some t else rest

-- scopeCovers
unfoldable pub scope_covers : List PaidRoute → Pass → Str → Bool
scope_covers routes p path =
    if not (str_eq p.kind kind_paid)
    then str_eq p.scope scope_all
    else elim (match_route routes path) [ none ↦ false | some t ↦ str_eq t.scope p.scope ]

module _ (g : Gate) where
  -- clientPrefix
  unfoldable pub client_prefix : Request → Str
  client_prefix r = elim (client_ip g.net g.match r) [
    | none ↦ []
    | some a ↦ g.net.show_prefix (masked (record { addr = a; bits = if is_6 a then 48 else 24 }))
  ]

  -- The guards of the loop of validPassAt: the pass of a cookie, if it is one for this request.
  unfoldable pub cookie_pass : Request → Time → Str × Str → Option Pass
  cookie_pass r at (name, value) =
      if not (str_eq name cookie_name) || is_empty value
      then none
      else elim (verify g.crypto g.keyring value at) [
        | err e ↦ none
        | ok p ↦
            if not (str_eq p.aud (request_audience g.net r))
            then none
            else if str_eq p.kind kind_pow && not (str_eq p.ipp (client_prefix r))
            then none
            else some p
      ]

  -- The loop, with the fallback found so far.
  unfoldable pub pick_pass : Request → Time → Option Pass → List (Str × Str) → Option Pass
  pick_pass r at fallback [] = fallback
  pick_pass r at fallback (c ∷ cs) =
      let found = cookie_pass r at c in
      let next : Option Pass = elim fallback [ some p ↦ some p | none ↦ found ] in
      let rest = pick_pass r at next cs in
      elim found [
        | none ↦ rest
        | some p ↦ if str_eq p.kind kind_pow || scope_covers g.routes p r.path then some p else rest
      ]

  -- validPassAt
  unfoldable pub valid_pass_at : Request → Time → Option Pass
  valid_pass_at r at = pick_pass r at none (g.cookies r.headers)

  -- mayRenew: the root of the session. A pass that is accepted has a root after 1970.
  unfoldable pub may_renew : Request → Time → Option Time
  may_renew r at = elim (valid_pass_at r at) [
    | none ↦ none
    | some p ↦
        if not (str_eq p.kind kind_pow) || not (str_eq p.scope scope_all)
        then none
        else let root = from_unix (pos_part (root_at p)) in
          if leb g.max_session (at - root) then none else some root
  ]

  -- What setPassCookie adds to the pass that its caller describes.
  unfoldable pub bind_pass : Request → Time → Pass → Time → Option Time → Pass
  bind_pass r now p exp root =
      let dated : Pass = record p {
        aud = request_audience g.net r;
        iat = pos (unix now);
        exp = pos (unix exp);
      } in
      let bound : Pass =
        if str_eq p.kind kind_pow
        then record dated { ipp = client_prefix r; uah = g.ua_hash (header r (text "User-Agent")) }
        else dated in
      elim root [ none ↦ bound | some t ↦ record bound { rt = pos (unix t) } ]

-- The cookie's MaxAge in seconds: the rest of the pass's life, rounded up, and 30 seconds. The
-- quotient of a negative number is rounded towards 0.
unfoldable pub max_age : Time → Time → ℕ
max_age exp now =
    let age =
      if leb now (exp + second - 1)
      then (exp + second - 1 - now) / second + 30
      else 30 - (now - (exp + second - 1)) / second in
    if ltb age 1 then 1 else age

pub record Cookie : Type 0 where
  pub name : Str
  pub value : Str
  pub max_age : ℕ
  pub secure : Bool

-- setPassCookie
unfoldable pub set_pass_cookie :
    Gate → Request → Time → Pass → Time → Option Time → Result Error Cookie
set_pass_cookie g r now p exp root = elim (mint g.crypto g.keyring (bind_pass g r now p exp root)) [
  | err e ↦ err e
  | ok s ↦ ok (record {
    name = cookie_name;
    value = s;
    max_age = max_age exp now;
    secure = request_is_tls g.net g.match r;
  })
]
