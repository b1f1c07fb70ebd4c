-- ===== src/Gate/Ladder.antt =====
-- internal/gate/gate.go and identity.go: the decision ladder, and what it forwards to the upstream.
pub mod Admission
pub mod Examples
use anteroom.Common.{
  ℕ, ◌++◌, ◌==◌, length, leb, Bool, true, false, ◌&&◌, ◌||◌, not, Option, none, some, List, [], ◌∷◌,
  any, if◌then◌else◌, Time,
}
use anteroom.Common.Text.{Str, text, is_empty, str_eq, contains, has_prefix, cut, split, trim_left}
use anteroom.Net.{Addr, invalid, is_valid}
use anteroom.Http.{Headers, Request, header, get, values, del, add, set}
use anteroom.Token.{Pass, kind_pow, kind_paid}
use anteroom.Bypass.{match_path, match_ip, client_ip}
use anteroom.Gate.Decision
use anteroom.Gate.Decision.{Decision}
use anteroom.Gate.Passes.{
  Gate, PaidRoute, cookie_name, request_audience, match_route, scope_covers, valid_pass_at,
}

pub data CrawlerVerdict : Type 0 where
  verified indeterminate unverified : CrawlerVerdict

-- What the ladder takes from elsewhere: path.Clean, the crawler and hosted-fetcher packages, the
-- classification of a request as a navigation, and the decision of servePayment on a presentation.
pub record Ladder : Type 0 where
  pub gate : Gate
  pub clean : Str → Str
  pub public_hosts : List Str
  pub health_path : Str
  pub payments_enabled : Bool
  pub allow_hosted : Bool
  pub crawler_claim : Request → Str
  pub verify_crawler : Str → Addr → CrawlerVerdict
  pub hosted_claim : Request → Option Str
  pub verify_hosted : Str → Addr → Bool
  pub navigation : Request → Bool
  pub serve_payment : Request → PaidRoute → Str → Decision

-- What a rung does: forward the request, or answer it with a response of the gate. A paid forward
-- goes through the writer that seals it.
pub data Effect : Type 0 where
  forwards seals : Request → Effect
  answers : Effect

abbrev pub status_header : Str
status_header = text "X-Anteroom-Status"

abbrev pub action_header : Str
action_header = text "X-Anteroom-Action"

unfoldable pub is_blank : ℕ → Bool
is_blank c = c == b' ' || c == 9

-- The pairs of a value of the header Cookie that are kept, and whether one is left out.
unfoldable pub keep_pairs : List Str → List Str × Bool
keep_pairs [] = ([], false)
keep_pairs (pair ∷ pairs) =
    let (kept, changed) = keep_pairs pairs in
    let trimmed = trim_left is_blank pair in
    let name : Str = elim (cut b'=' trimmed) [ none ↦ trimmed | some (before, after) ↦ before ] in
    if str_eq name cookie_name then (kept, true) else (trimmed ∷ kept, changed)

-- strings.Join with "; "
unfoldable pub join : List Str → Str
join [] = []
join (s ∷ []) = s
join (s ∷ t ∷ ts) = s ++ (b';' ∷ b' ' ∷ join (t ∷ ts))

unfoldable pub keep_values : List Str → List Str × Bool
keep_values [] = ([], false)
keep_values (v ∷ vs) =
    let (out, changed) = keep_values vs in
    let (kept, here) = keep_pairs (split b';' v) in
    (if leb 1 (length kept) then join kept ∷ out else out, here || changed)

unfoldable pub add_all : Str → List Str → Headers → Headers
add_all name [] h = h
add_all name (v ∷ vs) h = add_all name vs (add name v h)

-- stripPassCookie
unfoldable pub strip_pass_cookie : Request → Request
strip_pass_cookie r =
    let (out, changed) = keep_values (values (text "Cookie") r.headers) in
    if changed
    then record r { headers = add_all (text "Cookie") out (del (text "Cookie") r.headers) }
    else r

-- The request that forward hands to the proxy.
unfoldable pub forwarded : Request → Request
forwarded r =
    let s = strip_pass_cookie r in
    record s {
      headers =
          del (text "PAYMENT-RESPONSE")
            (del (text "PAYMENT-REQUIRED") (del (text "PAYMENT-SIGNATURE") s.headers));
    }

-- The header lines that only the gate writes are taken off.
unfoldable pub strip_authored : Request → Request
strip_authored r = record r {
  headers =
      del (text "PAYMENT-REQUIRED")
        (del (text "PAYMENT-RESPONSE") (del action_header (del status_header r.headers)));
}

abbrev marked : Str → Request → Request
marked status r = record r { headers = set status_header status r.headers }

-- isCORSPreflight
unfoldable pub is_cors_preflight : Request → Bool
is_cors_preflight r =
    str_eq r.method (text "OPTIONS")
    && (not (is_empty (header r (text "Origin")))
        && not (is_empty (header r (text "Access-Control-Request-Method"))))

abbrev pub Answer : Type 0
Answer = Decision × Effect

-- serveClaimedIdentity; `none` leaves the request to the rest of the ladder.
unfoldable pub serve_claimed_identity : Ladder → Request → Addr → Option Answer
serve_claimed_identity l r ip =
    let claim = l.crawler_claim r in
    if not (is_valid ip)
    then none
    else if not (is_empty claim)
    then some (elim (l.verify_crawler claim ip) [
      | verified ↦ (
        Decision.bypass_crawler,
        forwards (forwarded (marked (text "bypass-crawler-" ++ claim) r)),
      )
      | indeterminate ↦ (Decision.crawler_verification_unavailable, answers)
      | unverified ↦ (Decision.crawler_unverified, answers)
    ])
    else elim (l.hosted_claim r) [
      | none ↦ none
      | some provider ↦
          if l.verify_hosted provider ip && l.allow_hosted
          then some (
            Decision.bypass_hosted,
            forwards (forwarded (marked (text "bypass-hosted-" ++ provider) r)),
          )
          else if l.verify_hosted provider ip
          then some (Decision.hosted_refusal, answers)
          else some (Decision.hosted_unverified, answers)
    ]

-- The decision of a presentation that has been granted.
unfoldable pub is_granted : Decision → Bool
is_granted Decision.pass_paid = true
is_granted d = false

-- The request of a granted presentation, as servePaidGrant forwards it.
unfoldable pub paid_request : Request → Request
paid_request r =
    let s = strip_pass_cookie (marked (text "pass-paid") r) in
    forwarded (record s { headers = del (text "PAYMENT-SIGNATURE") s.headers })

-- The end of servePayment: a granted presentation is forwarded through the paid writer, and every other
-- is answered by the gate.
unfoldable pub present_payment : Ladder → Request → PaidRoute → Str → Answer
present_payment l r route v =
    let d = l.serve_payment r route v in
    if is_granted d then (d, seals (paid_request r)) else (d, answers)

-- The rungs below the passes.
unfoldable pub serve_unadmitted : Ladder → Request → Answer
serve_unadmitted l r =
    let last : Answer =
      if l.navigation r then (Decision.wait_page, answers) else (Decision.refusal, answers) in
    if not l.payments_enabled then last else elim (match_route l.gate.routes r.path) [
      | none ↦ last
      | some route ↦ elim (values (text "PAYMENT-SIGNATURE") r.headers) [
        | v ∷ [] ↦ present_payment l r route v
        | v ∷ w ∷ vs ↦ (Decision.pay_malformed, answers)
        | [] ↦ if not (l.navigation r) then (Decision.payment_required, answers) else last
      ]
    ]

-- The rung of the passes.
unfoldable pub serve_pass : Ladder → Time → Request → Answer
serve_pass l now r = elim (valid_pass_at l.gate r now) [
  | none ↦ serve_unadmitted l r
  | some p ↦
      if not (scope_covers l.gate.routes p r.path)
      then serve_unadmitted l r
      else if str_eq p.kind kind_paid
      then (
        Decision.pass_paid,
        seals (forwarded (strip_pass_cookie (marked (text "pass-" ++ p.kind) r))),
      )
      else (
        Decision.pass_pow,
        forwards (forwarded (strip_pass_cookie (marked (text "pass-" ++ p.kind) r))),
      )
]

-- The address that inspect resolves; the zero address on an error.
unfoldable pub resolved : Ladder → Request → Addr
resolved l r = elim (client_ip l.gate.net l.gate.match r) [ none ↦ invalid | some a ↦ a ]

-- The rungs behind the gate's own endpoints.
unfoldable pub serve_site : Ladder → Time → Request → Addr → Answer
serve_site l now r ip =
    if match_path l.gate.match r.path
    then (Decision.bypass_path, forwards (forwarded r))
    else if is_valid ip && match_ip l.gate.match ip
    then (Decision.bypass_ip, forwards (forwarded r))
    else if is_cors_preflight r
    then (Decision.cors_preflight, forwards (forwarded r))
    else elim (serve_claimed_identity l r ip) [ some a ↦ a | none ↦ serve_pass l now r ]

-- serve
unfoldable pub serve : Ladder → Time → Request → Answer
serve l now request =
    let r = strip_authored request in
    let ip = resolved l request in
    if not (str_eq r.path (l.clean r.path)) || contains r.path (b'\\' ∷ [])
    then (Decision.non_canonical_path, answers)
    else if not (str_eq r.path l.health_path)
        && (leb 1 (length l.public_hosts)
            && not (any (str_eq (request_audience l.gate.net request)) l.public_hosts))
    then (Decision.unknown_authority, answers)
    else if has_prefix r.path (text "/.anteroom/")
    then (Decision.own_endpoint, answers)
    else serve_site l now r ip
