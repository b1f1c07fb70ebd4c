-- ===== src/Config/Payments.antt =====
-- internal/config/config.go, the section of payments: its checks and its defaults.
use anteroom.Common.{
  ℕ, ◌==◌, Bool, false, ◌&&◌, ◌||◌, not, Option, none, some, List, [], ◌∷◌, leb, length, any,
  if◌then◌else◌, ℤ, pos, ltb_ℤ, is_zero, Duration, second,
}
use anteroom.Common.Text.{Str, text, is_empty, str_eq, cut, contains, has_prefix, trim_space}
use anteroom.Common.Result.{Result, ok, err, ◌>>=◌, ◌>>◌, guard, or_fail, unless_err}
use anteroom.Common.Map.{Map, insert}
use anteroom.Token.{scope_all}
use anteroom.Bypass.{check_paths}
use anteroom.Config.Price.{parse_price}

pub record Rail : Type 0 where
  pub network : Str
  pub asset : Str
  pub decimals : ℤ
  pub asset_name : Str
  pub asset_version : Str
  pub asset_transfer_method : Str
  pub pay_to : Str
  pub rpc_url : Str
  pub facilitator : Str
  pub facilitator_headers : List Str
  pub facilitator_header : Map (List Str)

pub record Rule : Type 0 where
  pub name : Str
  pub paths : List Str
  pub price : Str
  pub paid_ttl : Duration
  pub price_atomic : Map ℕ

pub record Payments : Type 0 where
  pub pay_to : Str
  pub facilitator : Str
  pub facilitator_headers : List Str
  pub max_timeout_seconds : ℤ
  pub rails : List Rail
  pub rules : List Rule

-- A URL as net/url parses it; `loopback` is isLoopbackHost of its host name.
pub record Url : Type 0 where
  pub scheme : Str
  pub host : Str
  pub loopback : Bool
  pub has_user : Bool

-- url.Parse; os.Expand over the environment, which fails on a variable that is not set; and
-- http.CanonicalHeaderKey.
pub record Platform : Type 0 where
  pub parse_url : Str → Option Url
  pub expand : Str → Option Str
  pub canonical_key : Str → Str

pub data Error : Type 0 where
  no_pay_to no_facilitator not_http plaintext credentials unset_variable not_a_header bad_name
        reserved not_evm :
      Error
  no_rails no_network not_caip2 duplicate_rail no_asset bad_decimals bad_rpc_url orphan_headers
        bad_method no_domain :
      Error
  bad_timeout no_rules no_name reserved_name duplicate_rule no_paths bad_paths bad_price bad_ttl :
      Error

unfoldable pub is_http : Url → Bool
is_http u =
    not (is_empty u.host) && (str_eq u.scheme (text "https") || str_eq u.scheme (text "http"))

-- checkFacilitatorURL
unfoldable pub check_facilitator_url : Platform → Str → Result Error (Unit {0})
check_facilitator_url pl raw = do
  u ← or_fail (pl.parse_url raw) not_http
  guard (is_http u) not_http
  guard (not (str_eq u.scheme (text "http") && not u.loopback)) plaintext
  guard (not u.has_user) credentials

unfoldable pub is_token_char : ℕ → Bool
is_token_char c =
    (leb b'a' c && leb c b'z')
    || ((leb b'A' c && leb c b'Z')
        || ((leb b'0' c && leb c b'9') || any (λ d. d == c) (text "!#$%&'*+-.^_`|~")))

-- isHTTPToken
unfoldable pub is_http_token : Str → Bool
is_http_token s = not (is_empty s) && not (any (λ c. not (is_token_char c)) s)

-- facilitatorReservedHeaders
unfoldable pub facilitator_reserved_headers : List Str
facilitator_reserved_headers =
    text "Content-Type"
    ∷ text "Accept"
    ∷ text "Content-Length"
    ∷ text "Host"
    ∷ text "Transfer-Encoding"
    ∷ text "Connection"
    ∷ []

-- The body of the loop of parseHeaderList.
unfoldable pub parse_header : Platform → Str → Result Error (Str × Str)
parse_header pl entry = do
  expanded ← or_fail (pl.expand entry) unset_variable
  pair ← or_fail (cut b':' expanded) not_a_header
  let (name, value) = pair
  guard (not (is_empty (trim_space name) || is_empty (trim_space value))) not_a_header
  guard (is_http_token (trim_space name)) bad_name
  guard (not (any (str_eq (pl.canonical_key (trim_space name))) facilitator_reserved_headers))
      reserved
  ok (trim_space name, trim_space value)

-- parseHeaderList, with the headers so far; Header.Set writes the canonical key.
unfoldable pub parse_headers : Platform → Map (List Str) → List Str → Result Error (Map (List Str))
parse_headers pl h [] = ok h
parse_headers pl h (entry ∷ entries) = do
  pair ← parse_header pl entry
  let (name, value) = pair
  parse_headers pl (insert (pl.canonical_key name) (value ∷ []) h) entries

abbrev pub parse_header_list : Platform → List Str → Result Error (Map (List Str))
parse_header_list pl list = parse_headers pl [] list

unfoldable pub is_hex : ℕ → Bool
is_hex c = (leb b'0' c && leb c b'9') || ((leb b'a' c && leb c b'f') || (leb b'A' c && leb c b'F'))

-- evmAddress
unfoldable pub is_evm_address : Str → Bool
is_evm_address (z ∷ x ∷ digits) =
    z == b'0' && (x == b'x' && (length digits == 40 && not (any (λ c. not (is_hex c)) digits)))
is_evm_address s = false

-- checkPayTo
unfoldable pub check_pay_to : Str → List Rail → Result Error (Unit {0})
check_pay_to addr rails =
    if is_empty addr
    then ok tt
    else guard
        (not (any (λ r. has_prefix r.network (text "eip155:")) rails && not (is_evm_address addr)))
        not_evm

unfoldable pub is_transfer_method : Str → Bool
is_transfer_method m = str_eq m (text "eip3009") || str_eq m (text "permit2")

-- The rail with its own defaults.
unfoldable pub filled : Rail → Rail
filled rl =
    let rl : Rail = if is_zero rl.decimals then record rl { decimals = pos 6 } else rl in
    if is_empty rl.asset_transfer_method
    then record rl { asset_transfer_method = text "eip3009" }
    else rl

-- The facilitator of a rail: its own with its own headers, or that of the section.
unfoldable pub own_facilitator : Platform → Str → Map (List Str) → Rail → Result Error Rail
own_facilitator pl facilitator global rl =
    if not (is_empty rl.facilitator)
    then (do
      check_facilitator_url pl rl.facilitator
      h ← parse_header_list pl rl.facilitator_headers
      ok (record rl { facilitator_header = h }))
    else do
      guard (leb (length rl.facilitator_headers) 0) orphan_headers
      ok (record rl { facilitator = facilitator; facilitator_header = global })

-- The body of the loop over the rails; `seen` are the networks before.
unfoldable pub check_rail :
    Platform → Str → Str → Map (List Str) → List Str → Rail → Result Error Rail
check_rail pl pay_to facilitator global seen given = do
  guard (not (is_empty given.network)) no_network
  guard (contains given.network (b':' ∷ [])) not_caip2
  guard (not (any (str_eq given.network) seen)) duplicate_rail
  guard (not (is_empty given.asset)) no_asset
  let rl = filled given
  guard (not (ltb_ℤ rl.decimals (pos 0) || ltb_ℤ (pos 36) rl.decimals)) bad_decimals
  guard
      (is_empty rl.rpc_url || elim (pl.parse_url rl.rpc_url) [ none ↦ false | some u ↦ is_http u ])
      bad_rpc_url
  check_pay_to rl.pay_to (rl ∷ [])
  own ← own_facilitator pl facilitator global rl
  guard (is_transfer_method rl.asset_transfer_method) bad_method
  guard (not (is_empty rl.asset_name || is_empty rl.asset_version)) no_domain
  ok (if is_empty rl.pay_to then record own { pay_to = pay_to } else own)

unfoldable pub check_rails :
    Platform → Str → Str → Map (List Str) → List Str → List Rail → Result Error (List Rail)
check_rails pl pay_to facilitator global seen [] = ok []
check_rails pl pay_to facilitator global seen (rl ∷ rls) = do
  checked ← check_rail pl pay_to facilitator global seen rl
  rest ← check_rails pl pay_to facilitator global (rl.network ∷ seen) rls
  ok (checked ∷ rest)

-- The loop over the rails of a rule, with the prices so far.
unfoldable pub price_rails : Str → Map ℕ → List Rail → Result Error (Map ℕ)
price_rails price m [] = ok m
price_rails price m (rl ∷ rls) = do
  atomic ← elim (parse_price price rl.decimals) [ ok n ↦ ok n | err e ↦ err bad_price ]
  price_rails price (insert rl.network atomic m) rls

-- The body of the loop over the rules.
unfoldable pub check_rule : List Rail → List Str → Rule → Result Error Rule
check_rule rails seen r = do
  guard (not (is_empty r.name)) no_name
  guard (not (str_eq r.name scope_all)) reserved_name
  guard (not (any (str_eq r.name) seen)) duplicate_rule
  guard (leb 1 (length r.paths)) no_paths
  unless_err (check_paths r.paths) bad_paths
  prices ← price_rails r.price [] rails
  guard (leb second r.paid_ttl) bad_ttl
  ok (record r { price_atomic = prices })

unfoldable pub check_rules : List Rail → List Str → List Rule → Result Error (List Rule)
check_rules rails seen [] = ok []
check_rules rails seen (r ∷ rs) = do
  checked ← check_rule rails seen r
  rest ← check_rules rails (r.name ∷ seen) rs
  ok (checked ∷ rest)

-- Payments.validate
unfoldable pub validate_payments : Platform → Payments → Result Error Payments
validate_payments pl p = do
  guard (not (is_empty p.pay_to)) no_pay_to
  guard (not (is_empty p.facilitator)) no_facilitator
  check_facilitator_url pl p.facilitator
  global ← parse_header_list pl p.facilitator_headers
  check_pay_to p.pay_to p.rails
  guard (leb 1 (length p.rails)) no_rails
  rails ← check_rails pl p.pay_to p.facilitator global [] p.rails
  let timeout = if is_zero p.max_timeout_seconds then pos 300 else p.max_timeout_seconds
  guard (not (ltb_ℤ timeout (pos 1) || ltb_ℤ (pos 3600) timeout)) bad_timeout
  guard (leb 1 (length p.rules)) no_rules
  rules ← check_rules rails [] p.rules
  ok (record p { max_timeout_seconds = timeout; rails = rails; rules = rules })
