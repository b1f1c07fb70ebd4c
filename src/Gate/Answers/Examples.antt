-- ===== src/Gate/Answers/Examples.antt =====
-- A renewal of a session, and the theorems of passes and answers on it.
use anteroom.Common.{
  from_unix, pos_part, ◌+◌, ◌*◌, ◌≡◌, refl, ◌<◌, ◌↔◌, true, none, some, [], ◌∷◌, ◌++◌, pos, int64,
  any, Time, second, unix, Any,
}
use anteroom.Common.Text.{Str, text, str_eq, cut, trim_space, to_lower, trim_left, trim_suffix}
use anteroom.Common.Result.{ok}
use anteroom.Net.{NetText, v4, masked, unmap, network}
use anteroom.Http.{Request, get}
use anteroom.Bypass.{client_ip, remote_host, contains, request_is_tls}
use anteroom.Token.{
  Pass, Keyring, kind_pow, scope_all, root_at, validate, validate_kind, find_key, tag, signing_key,
  mint,
}
use anteroom.Token
use anteroom.Challenge
use anteroom.Challenge.{
  Profile, kind_renew, check_pow, below, big_endian, from_bytes, uint64, parse_profile, is_stale,
  mac, authenticate,
}
use anteroom.Challenge.Bytes.{encoded}
use anteroom.Gate.Passes.{
  Gate, Cookie, cookie_name, normalize_authority, request_audience, scope_covers, client_prefix,
  cookie_pass, pick_pass, valid_pass_at, may_renew, bind_pass, max_age, set_pass_cookie,
}
use anteroom.Gate.Passes.Entitlement.{Carries, opens_iff}
use anteroom.Gate.Answers.{Door, session, serve_answer}
use anteroom.Gate.Answers.Sessions.{IsEarned, IsRenewable, serve_answer-IsEarned, renewal_bounded}

abbrev old : Pass
old = record {
  v = pos 1;
  kid = text "k";
  kind = kind_pow;
  scope = scope_all;
  aud = text "h";
  iat = pos 1000;
  exp = pos 1600;
  ipp = text "n";
  uah = text "u";
  rt = pos 0;
  payer = [];
  tx = [];
}

abbrev crypto : Token.Crypto
crypto = record {
  hmac = λ k s. [];
  b64_encode = λ s. s;
  b64_decode = λ s. some s;
  marshal = λ p. [];
  unmarshal = λ s. some old;
}

abbrev net : NetText
net = record {
  parse_addr = λ s. some (v4 7);
  parse_prefix = λ s. none;
  show_addr = λ a. [];
  show_prefix = λ p. text "n";
  split_host_port = λ s. none;
}

abbrev gate : Gate
gate = record {
  net = net;
  crypto = crypto;
  cookies = λ h. (text "other", text "c") ∷ (cookie_name, text "x.") ∷ [];
  ua_hash = λ s. text "u";
  match = record { paths = []; cidrs = []; trusted = [] };
  keyring = record { sign_kid = text "k"; keys = (text "k", text "s") ∷ [] };
  routes = [];
  max_session = 3600 * second;
}

abbrev request : Request
request = record {
  method = text "POST";
  host = text "h";
  path = text "/";
  raw_query = [];
  headers = [];
  remote_addr = text "a";
  tls = true;
}

abbrev zeros : Str
zeros = 0 ∷ 0 ∷ 0 ∷ 0 ∷ 0 ∷ 0 ∷ 0 ∷ 0 ∷ 0 ∷ 0 ∷ 0 ∷ 0 ∷ 0 ∷ 0 ∷ 0 ∷ 0 ∷ []

abbrev hashing : Challenge.Crypto
hashing = record {
  hmac = λ k s. zeros ++ zeros;
  sha256 = λ s. 0 ∷ 7 ∷ [];
  b64_encode = λ s. s;
  b64_decode = λ s. some s;
}

abbrev cheap : Profile
cheap = record {
  kind = kind_renew;
  ttl = pos (600 * second);
  threshold = (0 ∷ 9 ∷ zeros) ++ (0 ∷ 0 ∷ 0 ∷ 0 ∷ 0 ∷ 0 ∷ 0 ∷ 0 ∷ 0 ∷ 0 ∷ 0 ∷ 0 ∷ 0 ∷ 0 ∷ []);
}

abbrev door : Door
door = record {
  gate = gate;
  hashing = hashing;
  sign_key = text "s";
  other_keys = [];
  admit = record cheap { kind = 1 };
  renew = cheap;
}

abbrev puzzle : Str
puzzle = ((big_endian 8 1100 ++ zeros) ++ encoded cheap) ++ (zeros ++ zeros)

abbrev earned : Cookie
earned = record { name = cookie_name; value = text "."; max_age = 530; secure = true }

answers : serve_answer door request (1200 * second) puzzle (text "z") ≡ ok earned
unfolding serve_answer session may_renew valid_pass_at pick_pass cookie_pass client_prefix
    scope_covers request_audience normalize_authority trim_space trim_left trim_suffix to_lower
    masked network unmap client_ip remote_host contains any set_pass_cookie bind_pass max_age
    request_is_tls mint Token.verify Token.tag Token.validate validate_kind find_key signing_key
    root_at cut str_eq text get Challenge.verify authenticate mac parse_profile Challenge.validate
    big_endian from_bytes uint64 int64 is_stale check_pow below
answers = refl

serve_answer-IsEarned_example : IsEarned door request (1200 * second) puzzle (text "z") earned
serve_answer-IsEarned_example =
    serve_answer-IsEarned door request (1200 * second) puzzle (text "z") earned answers

authentic :
    Challenge.verify hashing (text "s" ∷ []) puzzle (request_audience net request) (1200 * second)
    ≡ ok (1100 * second, cheap)
unfolding request_audience normalize_authority trim_space trim_left trim_suffix to_lower any str_eq
    text Challenge.verify authenticate mac parse_profile Challenge.validate big_endian from_bytes
    uint64 int64 is_stale
authentic = refl

renewal_bounded_example :
    (root : Time) × (p : Pass) × IsRenewable gate request (1100 * second) root
    × (mint crypto gate.keyring p ≡ ok (text "."))
    × (root_at p ≡ pos (unix root))
    × (from_unix (pos_part p.exp) < root + 3600 * second + 600 * second)
renewal_bounded_example =
    renewal_bounded door request (1200 * second) (1100 * second) puzzle (text "z") earned cheap
      answers authentic refl

opens_iff_example :
    ((p : Pass) × (valid_pass_at gate request (1200 * second) ≡ some p)
      × (scope_covers [] p (text "/") ≡ true))
    ↔ Any
        (λ c.
          (p : Pass) × Carries gate request (1200 * second) p c
          × (scope_covers [] p (text "/") ≡ true))
        ((text "other", text "c") ∷ (cookie_name, text "x.") ∷ [])
opens_iff_example = opens_iff gate request (1200 * second)
