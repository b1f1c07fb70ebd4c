-- ===== src/Gate/Ladder/Examples.antt =====
-- A ladder with one exempted path, and a request for it.
use anteroom.Common.{◌*◌, ◌≡◌, refl, ◌⊎◌, true, false, none, some, [], ◌∷◌, any, second}
use anteroom.Common.Text.{
  text, str_eq, contains, has_prefix, cut, split, trim_left, equal_fold, to_lower,
}
use anteroom.Net.{v4}
use anteroom.Http.{Request, del, values, add}
use anteroom.Bypass.{match_path, match_glob}
use anteroom.Gate.Decision
use anteroom.Gate.Passes.{Gate, request_audience}
use anteroom.Gate.Ladder.{
  Ladder, unverified, strip_authored, forwarded, strip_pass_cookie, keep_values, keep_pairs, join,
  add_all, is_blank, serve, serve_site, resolved,
}
use anteroom.Gate.Ladder.Admission.{upstream_request, Ground, serve-Ground}

abbrev gate : Gate
gate = record {
  net = record {
    parse_addr = λ s. some (v4 7);
    parse_prefix = λ s. none;
    show_addr = λ a. [];
    show_prefix = λ p. [];
    split_host_port = λ s. none;
  };
  crypto = record {
    hmac = λ k s. [];
    b64_encode = λ s. s;
    b64_decode = λ s. none;
    marshal = λ p. [];
    unmarshal = λ s. none;
  };
  cookies = λ h. [];
  ua_hash = λ s. s;
  match = record { paths = text "/pub" ∷ []; cidrs = []; trusted = [] };
  keyring = record { sign_kid = []; keys = [] };
  routes = [];
  max_session = 60 * second;
}

abbrev ladder : Ladder
ladder = record {
  gate = gate;
  clean = λ p. p;
  public_hosts = [];
  health_path = text "/.anteroom/healthz";
  payments_enabled = false;
  allow_hosted = false;
  crawler_claim = λ r. [];
  verify_crawler = λ c a. unverified;
  hosted_claim = λ r. none;
  verify_hosted = λ p a. false;
  navigation = λ r. true;
  serve_payment = λ r t v. Decision.pay_infra;
}

abbrev request : Request
request = record {
  method = text "GET";
  host = text "h";
  path = text "/pub";
  raw_query = [];
  headers =
      (text "Payment-Signature", text "s") ∷ (text "Cookie", text "a=b; anteroom_pass=x") ∷ [];
  remote_addr = text "a";
  tls = true;
}

abbrev out : Request
out = forwarded (strip_authored request)

passes : upstream_request (serve ladder 5 request).1 ≡ some out
unfolding serve serve_site match_path match_glob contains has_prefix cut any str_eq text
    strip_authored del
passes = refl

serve-Ground_example :
    Ground ladder 5 (strip_authored request) (resolved ladder request)
    × (request.path ≡ ladder.clean request.path)
    × (contains request.path (b'\\' ∷ []) ≡ false)
    × (has_prefix request.path (text "/.anteroom/") ≡ false)
    × ((request.path ≡ ladder.health_path)
        ⊎ ((ladder.public_hosts ≡ [])
            ⊎ (any (str_eq (request_audience gate.net request)) ladder.public_hosts ≡ true)))
serve-Ground_example = serve-Ground ladder 5 request out passes

-- The forwarded request has lost the payment and the pass cookie.
strips : (forwarded request).headers ≡ (text "Cookie", text "a=b") ∷ []
unfolding forwarded strip_pass_cookie keep_values keep_pairs join add_all add is_blank values del
    equal_fold to_lower split cut trim_left str_eq text
strips = refl
