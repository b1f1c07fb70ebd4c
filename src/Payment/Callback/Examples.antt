-- ===== src/Payment/Callback/Examples.antt =====
-- A settlement, a lost reply of /settle, and the theorems of a presentation on them.
use anteroom.Common.{
  ℕ, zero, suc, ◌*◌, ◌≡◌, refl, ◌≢◌, true, false, some, [], ◌∷◌, second, arith, pos,
}
use anteroom.Common.Text.{Str, text, str_eq, equal_fold, to_lower, trim_space}
use anteroom.Common.Map.{lookup}
use anteroom.Payment.Guards.{is_open}
use anteroom.Payment.Wire.{Requirements, Payload, transfer_method}
use anteroom.Payment.Identity.{
  digit, digits_from, magnitude, set_string, decimals, show, base_of, read_integer,
  canonical_integer, AuthJson, AuthIdentity, auth_key_for, authorization, at_key, selected,
}
use anteroom.Payment.Callback.{
  Endpoint, verifies, settles, Reply, unanswered, answered, SettleResponse, Facilitator, decode,
  attempts, call, valid, indeterminate, ambiguous, same_amount, classify, Callback, Moments,
  settle_stage, verify_stage, present,
}
use anteroom.Payment.Callback.Verdicts.{IsOrderly, present-IsOrderly}
use anteroom.Payment.Callback.Evidence.{IsSettled, present-valid}

abbrev rail : Requirements
rail = record {
  scheme = text "exact";
  network = text "n";
  asset = text "a";
  amount = text "7";
  pay_to = text "t";
  max_timeout_seconds = 60;
  extra = [];
}

abbrev paid : Payload
paid = record { x402_version = pos 2; payload = text "p"; accepted = rail; raw = text "j" }

abbrev json : AuthJson
json = record {
  fields = λ s. some ((text "authorization", text "b") ∷ []);
  identity = λ s. some (text "A", text "0x1");
}

abbrev settled : SettleResponse
settled = record {
  success = true;
  error_reason = [];
  payer = text "A";
  transaction = text "h";
  network = text "n";
  amount = text "0x07";
}

-- The first attempt of /verify is not answered, and can be retried.
abbrev reply : Endpoint → ℕ → Str → Reply
reply verifies zero body = unanswered false
reply verifies (suc zero) body = unanswered true
reply verifies (suc (suc k)) body = answered 200 (some [])
reply settles k body = answered 200 (some [])

abbrev good : Facilitator
good = record {
  marshal = λ raw req. some raw;
  has_request = λ e. true;
  reply = reply;
  read_verify = λ s. some (record { is_valid = true; invalid_reason = []; payer = [] });
  read_settle = λ s. some settled;
}

abbrev lost_reply : Endpoint → ℕ → Str → Reply
lost_reply verifies k body = answered 200 (some [])
lost_reply settles k body = unanswered false

abbrev lossy : Facilitator
lossy = record good { reply = lost_reply }

abbrev start : Callback
start = record {
  breaker = record {
    failures = 5 ∷ [];
    open_until = 0;
    threshold = 3;
    window = 30 * second;
    cooldown = 30 * second;
  };
  in_flight = 0;
}

abbrev at : Moments
at = record { at_open = 10; at_fail = 20; at_advice = 30 }

sends_in_order : (present json good at start paid rail).1.0 ≡ verifies ∷ verifies ∷ settles ∷ []
unfolding present verify_stage settle_stage call attempts decode is_open authorization at_key
    selected auth_key_for transfer_method canonical_integer read_integer base_of set_string
    magnitude digits_from digit show decimals trim_space text str_eq to_lower lookup classify
sends_in_order = refl

is_paid : (present json good at start paid rail).1.1.verdict ≡ valid
unfolding present verify_stage settle_stage call attempts decode is_open authorization at_key
    selected auth_key_for transfer_method canonical_integer read_integer base_of set_string
    magnitude digits_from digit show decimals trim_space text str_eq to_lower lookup classify
    same_amount equal_fold
is_paid = refl

is_ambiguous : (present json lossy at start paid rail).1.1.verdict ≡ ambiguous
unfolding present verify_stage settle_stage call attempts decode is_open authorization at_key
    selected auth_key_for transfer_method canonical_integer read_integer base_of set_string
    magnitude digits_from digit show decimals trim_space text str_eq to_lower lookup
is_ambiguous = refl

present-IsOrderly_example :
    IsOrderly
      (present json lossy at start paid rail).1.0
      (present json lossy at start paid rail).1.1.verdict
present-IsOrderly_example = present-IsOrderly json lossy at start paid rail

present-valid_example : IsSettled json good paid rail (present json good at start paid rail).1.1
present-valid_example = present-valid json good at start paid rail is_paid

sends : (present json good at start paid rail).1.0 ≢ []
sends h = ground (arith, sends_in_order)

is_definite : (present json good at start paid rail).1.1.verdict ≢ ambiguous
is_definite h = ground (arith, is_paid)

is_determinate : (present json good at start paid rail).1.1.verdict ≢ indeterminate
is_determinate h = ground (arith, is_paid)

abbrev payer : AuthIdentity
payer = record { method = text "authorization"; from = text "a"; nonce = text "1" }
