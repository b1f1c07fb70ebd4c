-- ===== src/Gate/Upstream/Examples.antt =====
-- A request that claims an address of its own.
use anteroom.Common.{◌≡◌, ◌∙◌, refl, false, none, some, [], ◌∷◌, second, ◌*◌, true}
use anteroom.Common.Text.{text, equal_fold, to_lower, str_eq}
use anteroom.Http.{Headers, Request, set, del, values-set, values-set_other, values-del}
use anteroom.Net.{v4}
use anteroom.Gate.Passes.{Gate}
use anteroom.Gate.Upstream.{rewrite}
use anteroom.Gate.Upstream.Trusted.{Tells, SetsForwarded, rewrite-Tells}

abbrev gate : Gate
gate = record {
  net = record {
    parse_addr = λ s. some (v4 7);
    parse_prefix = λ s. none;
    show_addr = λ a. text "0.0.0.7";
    show_prefix = λ p. [];
    split_host_port = λ s. some (s, []);
  };
  crypto = record {
    hmac = λ k s. [];
    b64_encode = λ s. s;
    b64_decode = λ s. none;
    marshal = λ p. [];
    unmarshal = λ s. none;
  };
  cookies = λ h. [];
  ua_hash = λ s. s;
  match = record { paths = []; cidrs = []; trusted = [] };
  keyring = record { sign_kid = []; keys = [] };
  routes = [];
  max_session = 60 * second;
}

abbrev request : Request
request = record {
  method = text "GET";
  host = text "h";
  path = text "/";
  raw_query = [];
  headers = (text "X-Real-Ip", text "10.0.0.1") ∷ (text "X-Forwarded-For", text "10.0.0.1") ∷ [];
  remote_addr = text "0.0.0.7";
  tls = true;
}

-- SetXForwarded, on a request whose peer is an address without a port.
abbrev reported : Request → Headers → Headers
reported r h = set (text "X-Forwarded-For") r.remote_addr (del (text "Forwarded") h)

forwarded_apart : equal_fold (text "X-Forwarded-For") (text "Forwarded") ≡ false
unfolding equal_fold to_lower str_eq text
forwarded_apart = refl

reports : SetsForwarded gate reported
reports = record {
  peers = λ r h. values-set (text "X-Forwarded-For") r.remote_addr (del (text "Forwarded") h);
  stripped = λ r h.
      values-set_other (text "X-Forwarded-For") (text "Forwarded") r.remote_addr
        (del (text "Forwarded") h) forwarded_apart
      ∙ values-del (text "Forwarded") h;
}

rewrite-Tells_example : Tells gate request (rewrite gate reported request)
rewrite-Tells_example = rewrite-Tells gate reported request reports
