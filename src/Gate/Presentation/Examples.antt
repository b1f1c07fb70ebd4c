-- ===== src/Gate/Presentation/Examples.antt =====
-- A payment that is settled and presented again, and the theorems of the pay door on the two.
use anteroom.Common.{
  ◌*◌, ◌≡◌, ◌∙◌, refl, ◌≢◌, ◌⊎◌, true, none, some, [], ◌∷◌, second, arith, pos, ltb_ℤ, unix,
  from_unix,
}
use anteroom.Common.Text.{
  Str, text, str_eq, equal_fold, to_lower, trim_space, trim_suffix, split, cut,
}
use anteroom.Common.Result.{ok}
use anteroom.Common.Map.{Map, lookup, insert}
use anteroom.Net.{v4}
use anteroom.Http.{Request, values, get, del, add}
use anteroom.Bypass.{client_ip, remote_host, request_is_tls}
use anteroom.Token.{mint, signing_key, find_key, tag, validate, validate_kind}
use anteroom.Payment.Wire.{Requirements, Payload, decode_payload, decode_any, transfer_method}
use anteroom.Payment.Identity.{
  AuthJson, digit, digits_from, magnitude, set_string, decimals, show, base_of, read_integer,
  canonical_integer, auth_key_for, authorization, at_key, selected, identity_fields, payment_id,
  check_terms, match_rail,
}
use anteroom.Payment.Store.{
  Grant, works, Begun, fresh, begin, release, commit, update, claim, known, reserve, replace,
  drop_lease, decode_grant_record, check_record, validate_grant,
}
use anteroom.Payment.Store.Bolt.{Bucket, put, delete}
use anteroom.Payment.Store.Bolt
use anteroom.Payment.Store.Records.{slot, committed}
use anteroom.Payment.Store.Codec.{lengths, lengths-Encodes}
use anteroom.Payment.Callback.{
  reported_amount, answered, Facilitator, Callback, Moments, attempts, call, decode, same_amount,
  classify, settle_stage, verify_stage, present,
}
use anteroom.Payment.Guards.{is_open, succeed, new_limiter, allow, refill, known_client}
use anteroom.Gate.Decision.{pass_paid}
use anteroom.Gate.Passes.{
  Gate, Cookie, PaidRoute, request_audience, normalize_authority, bind_pass, max_age,
  set_pass_cookie,
}
use anteroom.Config.Payments.{Rail}
use anteroom.Gate.Presentation.{
  PayAnswer, PricedRoute, PayDoor, grants, PayState, Meets, decimal, offer_rail, offer_all,
  is_upgrade_request, paid_expiry, settlement_field, paid_pass, admitted, serve_paid_grant,
  identify, limit_key, is_for, redeem, conclude, attempt, attempt_and_release, resume,
  serve_payment,
}
use anteroom.Gate.Presentation.Granting.{Entitled, is_grant}
use anteroom.Gate.Presentation.Refusing.{
  Calls, IsSettled, serve_payment-Calls, serve_payment-IsSettled,
}
use anteroom.Gate.Presentation.Verifiers.{
  Groups, identity_values, identity_headers, facilitator_identity, new_callback, add_rail,
  add_rails, build_groups, verify_on, verifying,
}
use anteroom.Gate.Presentation.Again.{presented_again}
use anteroom.Gate.Presentation.Settling.{SettledBy, offered_rail_served, paid_admission}

abbrev auth : AuthJson
auth = record {
  fields = λ s. some ((text "authorization", text "b") ∷ []);
  identity = λ s. some (text "A", text "0x1");
}

abbrev rail : Rail
rail = record {
  network = text "n";
  asset = text "a";
  asset_name = text "USDC";
  asset_version = text "2";
  asset_transfer_method = text "eip3009";
  pay_to = [];
  decimals = pos 6;
  rpc_url = [];
  facilitator = text "https://f/";
  facilitator_headers = [];
  facilitator_header = [];
}

abbrev route : PaidRoute
route = record {
  matcher = record { paths = text "/paid" ∷ []; cidrs = []; trusted = [] };
  scope = text "paid";
}

abbrev rule : PricedRoute
rule = record {
  route = route;
  rule = record {
    name = text "paid";
    paths = text "/paid" ∷ [];
    price = text "$0.000007";
    paid_ttl = 60 * second;
    price_atomic = (text "n", 7) ∷ [];
  };
}

abbrev gate : Gate
gate = record {
  net = record {
    parse_addr = λ s. some (v4 7);
    parse_prefix = λ s. none;
    show_addr = λ a. text "0.0.0.7";
    show_prefix = λ p. [];
    split_host_port = λ s. none;
  };
  crypto = record {
    hmac = λ k s. [];
    b64_encode = λ s. s;
    b64_decode = λ s. none;
    marshal = λ p. text "pass";
    unmarshal = λ s. none;
  };
  cookies = λ h. [];
  ua_hash = λ s. s;
  match = record { paths = []; cidrs = []; trusted = [] };
  keyring = record { sign_kid = text "k"; keys = (text "k", text "s") ∷ [] };
  routes = route ∷ [];
  max_session = 60 * second;
}

abbrev asked : Requirements
asked = record {
  scheme = text "exact";
  network = text "n";
  asset = text "a";
  amount = text "7";
  pay_to = text "t";
  max_timeout_seconds = 60;
  extra = [];
}

abbrev facilitator : Facilitator
facilitator = record {
  marshal = λ raw req. some raw;
  has_request = λ e. true;
  reply = λ e k body. answered 200 (some []);
  read_verify = λ s. some (record { is_valid = true; invalid_reason = []; payer = [] });
  read_settle = λ s. some (record {
    success = true;
    error_reason = [];
    payer = text "A";
    transaction = text "h";
    network = text "n";
    amount = [];
  });
}

abbrev moments : Moments
moments = record { at_open = 10; at_fail = 20; at_advice = 30 }

abbrev payload : Payload
payload = record { x402_version = pos 2; payload = text "p"; accepted = asked; raw = text "j" }

abbrev rails_groups : Groups
rails_groups = build_groups (λ xs. xs) (rail ∷ [])

abbrev networks : Map Str
networks = (text "n", text "https://f") ∷ []

networks_built :
    rails_groups ≡ record { groups = (text "https://f", new_callback) ∷ []; of_network = networks }
unfolding add_rails add_rail insert lookup facilitator_identity identity_headers identity_values
    trim_suffix text str_eq
networks_built = refl

abbrev door : PayDoor (Map Callback)
door = record {
  gate = gate;
  wire = record {
    decoders = (λ s. some s) ∷ [];
    unmarshal =
        λ s. some (record { x402_version = pos 2; payload = text "p"; accepted = asked; raw = [] });
  };
  auth = auth;
  digest = λ xs. text "id";
  json = lengths;
  pay_to = text "t";
  max_timeout_seconds = 60;
  rails = rail ∷ [];
  verifiers = verifying auth (λ k. facilitator) moments networks;
}

abbrev request : Request
request = record {
  method = text "GET";
  host = text "h";
  path = text "/paid";
  raw_query = [];
  headers = (text "Payment-Signature", text "j") ∷ [];
  remote_addr = text "a";
  tls = true;
}

abbrev meets : Meets
meets = record {
  disk_begin = works;
  disk_commit = works;
  disk_release = works;
  entropy = some (text "l");
  at_begin = 10 * second;
  at_limit = 10 * second;
  at_settle = 11 * second;
  at_grant = 12 * second;
  at_mint = 12 * second;
}

abbrev start : PayState (Map Callback)
start = record {
  bucket = [];
  limiter = new_limiter (pos 6) (pos 6);
  world = (text "https://f", new_callback) ∷ [];
}

is_paid : is_grant (serve_payment door request rule (text "j") meets start).1.1 ≡ true
unfolding serve_payment identify is_upgrade_request offer_all offer_rail decimal resume attempt
    attempt_and_release conclude redeem is_for serve_paid_grant settlement_field paid_expiry
    limit_key begin release commit update claim known reserve replace drop_lease decode_grant_record
    check_record validate_grant Bolt.get put delete lengths client_ip remote_host request_is_tls
    mint signing_key find_key tag validate validate_kind request_audience normalize_authority
    bind_pass set_pass_cookie max_age decode_payload decode_any payment_id match_rail check_terms
    identity_fields verifying verify_on new_callback allow refill known_client new_limiter present
    verify_stage settle_stage call attempts decode is_open authorization at_key selected
    auth_key_for transfer_method canonical_integer read_integer base_of set_string magnitude
    digits_from digit show decimals trim_space text str_eq to_lower lookup insert classify
    same_amount equal_fold trim_suffix values get del add split cut succeed
is_paid = refl

abbrev paid_grant : Grant
paid_grant = record {
  scope = text "paid";
  audience = text "h";
  payer = text "A";
  transaction = text "h";
  amount = [];
  network = text "n";
  expires_at = pos 71;
}

-- The store after the settlement.
abbrev settled_bucket : Bucket
settled_bucket =
    (commit lengths works (text "id") (text "l") paid_grant
      (begin lengths works (text "id") (some (text "l")) (10 * second) []).0).0

is_settled : slot lengths settled_bucket (text "id") ≡ committed paid_grant
unfolding serve_payment identify is_upgrade_request offer_all offer_rail decimal resume attempt
    attempt_and_release conclude redeem is_for serve_paid_grant settlement_field paid_expiry
    limit_key begin release commit update claim known reserve replace drop_lease decode_grant_record
    check_record validate_grant Bolt.get put delete lengths client_ip remote_host request_is_tls
    mint signing_key find_key tag validate validate_kind request_audience normalize_authority
    bind_pass set_pass_cookie max_age decode_payload decode_any payment_id match_rail check_terms
    identity_fields verifying verify_on new_callback allow refill known_client new_limiter present
    verify_stage settle_stage call attempts decode is_open authorization at_key selected
    auth_key_for transfer_method canonical_integer read_integer base_of set_string magnitude
    digits_from digit show decimals trim_space text str_eq to_lower lookup insert classify
    same_amount equal_fold trim_suffix values get del add split cut succeed slot
is_settled = refl

is_identified :
    identify door request rule (text "j")
    ≡ ok (payload, (offer_rail (text "t") 60 rail 7, text "id"))
unfolding serve_payment identify is_upgrade_request offer_all offer_rail decimal resume attempt
    attempt_and_release conclude redeem is_for serve_paid_grant settlement_field paid_expiry
    limit_key begin release commit update claim known reserve replace drop_lease decode_grant_record
    check_record validate_grant Bolt.get put delete lengths client_ip remote_host request_is_tls
    mint signing_key find_key tag validate validate_kind request_audience normalize_authority
    bind_pass set_pass_cookie max_age decode_payload decode_any payment_id match_rail check_terms
    identity_fields verifying verify_on new_callback allow refill known_client new_limiter present
    verify_stage settle_stage call attempts decode is_open authorization at_key selected
    auth_key_for transfer_method canonical_integer read_integer base_of set_string magnitude
    digits_from digit show decimals trim_space text str_eq to_lower lookup insert classify
    same_amount equal_fold trim_suffix values get del add split cut succeed
is_identified = refl

abbrev cookie : Cookie
cookie = record { name = text "anteroom_pass"; value = text "pass."; max_age = 89; secure = true }

is_minted :
    set_pass_cookie gate request (12 * second) (paid_pass paid_grant) (from_unix 71) none
    ≡ ok cookie
unfolding serve_payment identify is_upgrade_request offer_all offer_rail decimal resume attempt
    attempt_and_release conclude redeem is_for serve_paid_grant settlement_field paid_expiry
    limit_key begin release commit update claim known reserve replace drop_lease decode_grant_record
    check_record validate_grant Bolt.get put delete lengths client_ip remote_host request_is_tls
    mint signing_key find_key tag validate validate_kind request_audience normalize_authority
    bind_pass set_pass_cookie max_age decode_payload decode_any payment_id match_rail check_terms
    identity_fields verifying verify_on new_callback allow refill known_client new_limiter present
    verify_stage settle_stage call attempts decode is_open authorization at_key selected
    auth_key_for transfer_method canonical_integer read_integer base_of set_string magnitude
    digits_from digit show decimals trim_space text str_eq to_lower lookup insert classify
    same_amount equal_fold trim_suffix values get del add split cut succeed
is_minted = refl

is_named : text "id" ≢ []
unfolding text
is_named e = ground arith

abbrev again : PayState (Map Callback)
again = record start { bucket = settled_bucket }

is_for_here : text "h" ≡ request_audience gate.net request
unfolding request_audience normalize_authority text to_lower trim_space trim_suffix
is_for_here = refl

is_live : ltb_ℤ (pos (unix (10 * second))) (pos 71) ≡ true
is_live = refl

abbrev first_answer : PayAnswer
first_answer = (pass_paid, grants cookie paid_grant (admitted request))

bought_first : (serve_payment door request rule (text "j") meets start).1 ≡ first_answer
unfolding serve_payment identify is_upgrade_request offer_all offer_rail decimal resume attempt
    attempt_and_release conclude redeem is_for serve_paid_grant settlement_field paid_expiry
    limit_key begin release commit update claim known reserve replace drop_lease decode_grant_record
    check_record validate_grant Bolt.get put delete lengths client_ip remote_host request_is_tls
    mint signing_key find_key tag validate validate_kind request_audience normalize_authority
    bind_pass set_pass_cookie max_age decode_payload decode_any payment_id match_rail check_terms
    identity_fields verifying verify_on new_callback allow refill known_client new_limiter present
    verify_stage settle_stage call attempts decode is_open authorization at_key selected
    auth_key_for transfer_method canonical_integer read_integer base_of set_string magnitude
    digits_from digit show decimals trim_space text str_eq to_lower lookup insert classify
    same_amount equal_fold trim_suffix values get del add split cut succeed slot reported_amount
bought_first = refl

named_id :
    (p : Payload) (req : Requirements) (id : Str)
    → identify door request rule (text "j") ≡ ok (p, (req, id))
    → id ≢ []
named_id p req id q e =
    let same : text "id" ≡ id = ground (arith, is_identified, q) in is_named (same ∙ e)

presented_again_example :
    serve_payment door request rule
      (text "j")
      meets
      (serve_payment door request rule (text "j") meets start).0
    ≡ (
      (serve_payment door request rule (text "j") meets start).0,
      (pass_paid, grants cookie paid_grant (admitted request)),
    )
presented_again_example =
    presented_again door lengths-Encodes request rule meets meets (text "j") start paid_grant cookie
      cookie (admitted request) named_id bought_first refl is_live (omega arith) is_minted

new_lease : (l : Str) → some (text "l") ≡ some l → l ≢ []
unfolding text
new_lease l e z = ground arith

begins :
    (begin lengths works (text "id") (some (text "l")) (10 * second) []).1
    ≡ ok (record { state = fresh; lease = text "l"; existing = none })
unfolding begin update claim known reserve decode_grant_record Bolt.get put delete text lengths
begins = refl

serve_payment-IsSettled_example :
    IsSettled
      (slot lengths (serve_payment door request rule (text "j") meets start).0.bucket (text "id"))
serve_payment-IsSettled_example =
    serve_payment-IsSettled door lengths-Encodes request rule meets (text "j") start payload
      (offer_rail (text "t") 60 rail 7) (text "id")
      (record { state = fresh; lease = text "l"; existing = none }) new_lease refl is_identified
      begins refl

serve_payment-Calls_example :
    ((serve_payment door request rule (text "j") meets start).0.world ≡ start.world)
    ⊎ ((p : Payload) × (req : Requirements) × (id : Str) × (b : Begun) × (identify door request rule
            (text "j")
          ≡ ok (p, (req, id)))
        × ((begin lengths works id (some (text "l")) (10 * second) []).1 ≡ ok b)
        × (b.state ≡ fresh)
        × Calls door request rule meets p req start
            (serve_payment door request rule (text "j") meets start).0)
serve_payment-Calls_example = serve_payment-Calls door request rule meets (text "j") start

paid_admission_example :
    (p : Payload) × (req : Requirements) × (id : Str) × (identify door request rule (text "j")
      ≡ ok (p, (req, id)))
    × (((w : Grant) × (slot lengths [] id ≡ committed w))
        ⊎ SettledBy auth
            (λ k. facilitator)
            moments
            networks
            p
            req
            start.world
            (verify_on auth (λ k. facilitator) moments networks start.world p req).1)
    × Entitled door request rule meets id
        (serve_payment door request rule (text "j") meets start).0.bucket
        (serve_payment door request rule (text "j") meets start).1
paid_admission_example =
    paid_admission door lengths-Encodes (λ k. facilitator) moments networks request rule meets
      (text "j") start refl is_paid

is_matched :
    match_rail payload (offer_all (text "t") 60 rule (rail ∷ []))
    ≡ ok (offer_rail (text "t") 60 rail 7)
unfolding match_rail check_terms offer_all offer_rail decimal decimals digit str_eq text equal_fold
    to_lower lookup
is_matched = refl

offered_rail_served_example :
    ((verifying auth (λ k. facilitator) moments rails_groups.of_network).has_verifier
        (offer_rail (text "t") 60 rail 7).network
      ≡ true)
    × (key : Str) × (c : Callback) × (lookup
          (offer_rail (text "t") 60 rail 7).network
          rails_groups.of_network
        ≡ some key)
    × (lookup key rails_groups.groups ≡ some c)
offered_rail_served_example =
    offered_rail_served (λ xs. xs) (rail ∷ []) rule (text "t") 60 payload
      (offer_rail (text "t") 60 rail 7) auth (λ k. facilitator) moments is_matched

other_key : lookup (text "n") networks ≢ some (text "g")
unfolding lookup text str_eq
other_key e = ground arith
