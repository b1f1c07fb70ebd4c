-- ===== src/Gate/Ladder/Admission.antt =====
-- The ladder lets a request through only on a ground of admission.
use anteroom.Common.{
  ◌≡◌, refl, ◌↔◌, ◌⊎◌, inl, inr, Bool, true, false, ◌&&◌, ◌||◌, not, Option, none, some, List, [],
  ◌∷◌, length, leb, any, Time, arith, Option-cases, Bool-cases,
}
use anteroom.Common.Text.{Str, text, is_empty, str_eq, str_eq_iff, contains, has_prefix}
use anteroom.Net.{Addr, is_valid}
use anteroom.Http.{Request, values}
use anteroom.Token.{Pass}
use anteroom.Bypass.{match_path, match_ip}
use anteroom.Gate.Decision.{Decision}
use anteroom.Gate.Passes.{PaidRoute, request_audience, match_route, scope_covers, valid_pass_at}
use anteroom.Gate.Ladder.{
  CrawlerVerdict, verified, indeterminate, unverified, Ladder, Effect, forwards, seals, answers,
  Answer, is_granted, present_payment, strip_authored, is_cors_preflight, serve_claimed_identity,
  serve_unadmitted, serve_pass, serve_site, serve, resolved,
}

-- The request that reaches the upstream, if one does.
abbrev pub upstream_request : Effect → Option Request
upstream_request (forwards r) = some r
upstream_request (seals r) = some r
upstream_request answers = none

-- The grounds on which a request, with the lines of the gate taken off, is let through.
pub data Ground (l : Ladder) (now : Time) (r : Request) (ip : Addr) : Type 0 where
  path : match_path l.gate.match r.path ≡ true → Ground l now r ip
  range : is_valid ip ≡ true → match_ip l.gate.match ip ≡ true → Ground l now r ip
  preflight : is_cors_preflight r ≡ true → Ground l now r ip
  crawler : l.verify_crawler (l.crawler_claim r) ip ≡ verified → Ground l now r ip
  hosted :
      (provider : Str)
      → l.hosted_claim r ≡ some provider
      → l.verify_hosted provider ip ≡ true
      → l.allow_hosted ≡ true
      → Ground l now r ip
  pass :
      (p : Pass)
      → valid_pass_at l.gate r now ≡ some p
      → scope_covers l.gate.routes p r.path ≡ true
      → Ground l now r ip
  payment :
      (route : PaidRoute) (v : Str)
      → l.payments_enabled ≡ true
      → match_route l.gate.routes r.path ≡ some route
      → values (text "PAYMENT-SIGNATURE") r.headers ≡ v ∷ []
      → l.serve_payment r route v ≡ Decision.pass_paid
      → Ground l now r ip

List-cases :
    (vs : List Str)
    → (vs ≡ [])
      ⊎ (((v : Str) × (vs ≡ v ∷ []))
          ⊎ ((v : Str) × (w : Str) × (ws : List Str) × (vs ≡ v ∷ w ∷ ws)))
List-cases [] = inl refl
List-cases (v ∷ []) = inr (inl (v, refl))
List-cases (v ∷ w ∷ ws) = inr (inr (v, w, ws, refl))

CrawlerVerdict-cases :
    (v : CrawlerVerdict) → (v ≡ verified) ⊎ ((v ≡ indeterminate) ⊎ (v ≡ unverified))
CrawlerVerdict-cases verified = inl refl
CrawlerVerdict-cases indeterminate = inr (inl refl)
CrawlerVerdict-cases unverified = inr (inr refl)

is_granted-eq : (d : Decision) → is_granted d ≡ true → d ≡ Decision.pass_paid
unfolding is_granted
is_granted-eq d h = ground arith

module _ (l : Ladder) (now : Time) (r : Request) (ip : Addr) (out : Request) where
  present_payment-Ground :
      (route : PaidRoute) (v : Str)
      → l.payments_enabled ≡ true
      → match_route l.gate.routes r.path ≡ some route
      → values (text "PAYMENT-SIGNATURE") r.headers ≡ v ∷ []
      → upstream_request (present_payment l r route v).1 ≡ some out
      → Ground l now r ip
  unfolding present_payment
  present_payment-Ground route v on m f h =
      elim (Bool-cases (is_granted (l.serve_payment r route v))) [
        | inl b ↦ payment route v on m f (is_granted-eq (l.serve_payment r route v) b)
        | inr b ↦ absurd (ground (arith, b))
      ]

  unadmitted-Ground : upstream_request (serve_unadmitted l r).1 ≡ some out → Ground l now r ip
  unfolding serve_unadmitted
  unadmitted-Ground h = elim (Bool-cases l.payments_enabled) [
    | inr off ↦ elim (Bool-cases (l.navigation r)) [
      | inl w ↦ absurd (ground (arith, off, w))
      | inr w ↦ absurd (ground (arith, off, w))
    ]
    | inl on ↦ elim (Option-cases (match_route l.gate.routes r.path)) [
      | inl e ↦ absurd (ground (arith, on, e))
      | inr (t, e) ↦ elim (List-cases (values (text "PAYMENT-SIGNATURE") r.headers)) [
        | inl f ↦ absurd (ground (arith, on, e, f))
        | inr (inl (v, f)) ↦ present_payment-Ground t v on e f (ground (arith, on, e, f))
        | inr (inr (v, w, ws, f)) ↦ absurd (ground (arith, on, e, f))
      ]
    ]
  ]

  pass-Ground : upstream_request (serve_pass l now r).1 ≡ some out → Ground l now r ip
  unfolding serve_pass
  pass-Ground h = elim (Option-cases (valid_pass_at l.gate r now)) [
    | inl e ↦ unadmitted-Ground (ground (arith, e))
    | inr (p, e) ↦ elim (Bool-cases (scope_covers l.gate.routes p r.path)) [
      | inl covers ↦ pass p e covers
      | inr misses ↦ unadmitted-Ground (ground (arith, e, misses))
    ]
  ]

  claimed-Ground :
      (a : Answer)
      → serve_claimed_identity l r ip ≡ some a
      → upstream_request a.1 ≡ some out
      → Ground l now r ip
  unfolding serve_claimed_identity
  claimed-Ground a e h = elim (Bool-cases (is_valid ip)) [
    | inr b ↦ absurd (ground (arith, b))
    | inl b ↦ elim (Bool-cases (is_empty (l.crawler_claim r))) [
      | inr c ↦ elim (CrawlerVerdict-cases (l.verify_crawler (l.crawler_claim r) ip)) [
        | inl v ↦ crawler v
        | inr (inl v) ↦ absurd (ground (arith, b, c, v))
        | inr (inr v) ↦ absurd (ground (arith, b, c, v))
      ]
      | inl c ↦ elim (Option-cases (l.hosted_claim r)) [
        | inl d ↦ absurd (ground (arith, b, c, d))
        | inr (provider, d) ↦ elim (Bool-cases (l.verify_hosted provider ip && l.allow_hosted)) [
          | inl v ↦ hosted provider d (ground arith) (ground arith)
          | inr v ↦ absurd (ground (arith, b, c, d, v))
        ]
      ]
    ]
  ]

  site-Ground : upstream_request (serve_site l now r ip).1 ≡ some out → Ground l now r ip
  unfolding serve_site
  site-Ground h = elim (Bool-cases (match_path l.gate.match r.path)) [
    | inl b ↦ path b
    | inr b ↦ elim (Bool-cases (is_valid ip && match_ip l.gate.match ip)) [
      | inl c ↦ range (ground arith) (ground arith)
      | inr c ↦ elim (Bool-cases (is_cors_preflight r)) [
        | inl d ↦ preflight d
        | inr d ↦ elim (Option-cases (serve_claimed_identity l r ip)) [
          | inl e ↦ pass-Ground (ground (arith, b, c, d, e))
          | inr (a, e) ↦ claimed-Ground a e (ground (arith, b, c, d, e))
        ]
      ]
    ]
  ]

served :
    {A : Type 0} {p q : Bool}
    → (p ≡ true) ↔ A
    → (hosts : List Str) → (not p && (leb 1 (length hosts) && not q)) ≡ false
    → A ⊎ ((hosts ≡ []) ⊎ (q ≡ true))
served {p = true} e hosts h = inl (e.0 refl)
served {p = false} e [] h = inr (inl refl)
served {p = false} {q = true} e (x ∷ hosts) h = inr (inr refl)
served {p = false} {q = false} e (x ∷ hosts) h = absurd (ground arith)

-- What reaches the upstream has a ground of admission, a canonical path outside the gate's own prefix,
-- and an authority that is served here.
pub serve-Ground :
    (l : Ladder) (now : Time) (request out : Request)
    → upstream_request (serve l now request).1 ≡ some out
    → Ground l now (strip_authored request) (resolved l request)
      × (request.path ≡ l.clean request.path)
      × (contains request.path (b'\\' ∷ []) ≡ false)
      × (has_prefix request.path (text "/.anteroom/") ≡ false)
      × ((request.path ≡ l.health_path)
          ⊎ ((l.public_hosts ≡ [])
              ⊎ (any (str_eq (request_audience l.gate.net request)) l.public_hosts ≡ true)))
unfolding serve strip_authored
serve-Ground l now request out h =
    let r = strip_authored request in
    let bad_path =
      not (str_eq request.path (l.clean request.path)) || contains request.path (b'\\' ∷ []) in
    let bad_host =
      not (str_eq request.path l.health_path)
      && (leb 1 (length l.public_hosts)
          && not (any (str_eq (request_audience l.gate.net request)) l.public_hosts)) in
    elim (Bool-cases bad_path) [
      | inl b ↦ absurd (ground (arith, b))
      | inr b ↦ elim (Bool-cases bad_host) [
        | inl c ↦ absurd (ground (arith, b, c))
        | inr c ↦ elim (Bool-cases (has_prefix request.path (text "/.anteroom/"))) [
          | inl d ↦ absurd (ground (arith, b, c, d))
          | inr d ↦ (
            site-Ground l now r (resolved l request) out (ground (arith, b, c, d)),
            (str_eq_iff request.path (l.clean request.path)).0 (ground (arith, b)),
            ground (arith, b),
            d,
            served (str_eq_iff request.path l.health_path) l.public_hosts c,
          )
        ]
      ]
    ]
