-- ===== src/Config/Examples.antt =====
-- A section of payments with two rails, of which one has a facilitator of its own.
use anteroom.Common.{◌*◌, ◌≡◌, refl, ◌↔◌, some, List, [], ◌∷◌, pos, second, All, any, false}
use anteroom.Common.Text.{Str, text, str_eq, cut, contains, has_prefix, trim_space, trim_left}
use anteroom.Common.Result.{ok}
use anteroom.Common.Map.{Map, insert}
use anteroom.Bypass.{check_paths, count}
use anteroom.Payment.Identity.{set_string, magnitude, digits_from, digit}
use anteroom.Config.Price.{trim_prefix, zeros, is_other, parts, parse_price}
use anteroom.Config.Pricing.{IsPrice, parse_price_iff}
use anteroom.Config.Payments.{
  Rail, Rule, Payments, Platform, is_http, check_facilitator_url, is_token_char, is_http_token,
  facilitator_reserved_headers, parse_header, parse_headers, parse_header_list, is_hex,
  is_evm_address, check_pay_to, is_transfer_method, filled, own_facilitator, check_rail,
  check_rails, price_rails, check_rule, check_rules, validate_payments,
}
use anteroom.Config.Offering.{IsTrusted, IsChecked, Pairs}
use anteroom.Config.Validated.{validate_payments-Pairs}
use anteroom.Gate.Presentation.Offers.{OffersAll, validate_payments-OffersAll}

abbrev platform : Platform
platform = record {
  parse_url = λ s.
      some (record { scheme = text "https"; host = text "f"; loopback = false; has_user = false });
  expand = λ s. some s;
  canonical_key = λ s. s;
}

abbrev base : Rail
base = record {
  network = text "solana:1";
  asset = text "a";
  decimals = pos 0;
  asset_name = text "USDC";
  asset_version = text "2";
  asset_transfer_method = [];
  pay_to = [];
  rpc_url = [];
  facilitator = [];
  facilitator_headers = [];
  facilitator_header = [];
}

abbrev other : Rail
other = record base {
  network = text "solana:2";
  decimals = pos 2;
  facilitator = text "https://g";
  facilitator_headers = text "Authorization: k" ∷ [];
}

abbrev site : Rule
site = record {
  name = text "site";
  paths = text "/*" ∷ [];
  price = text " $1.25";
  paid_ttl = 60 * second;
  price_atomic = [];
}

abbrev given : Payments
given = record {
  pay_to = text "t";
  facilitator = text "https://f";
  facilitator_headers = text "X-Key: s" ∷ [];
  max_timeout_seconds = pos 0;
  rails = base ∷ other ∷ [];
  rules = site ∷ [];
}

abbrev checked : Payments
checked = record {
  pay_to = text "t";
  facilitator = text "https://f";
  facilitator_headers = text "X-Key: s" ∷ [];
  max_timeout_seconds = pos 300;
  rails =
      record base {
        decimals = pos 6;
        asset_transfer_method = text "eip3009";
        pay_to = text "t";
        facilitator = text "https://f";
        facilitator_header = (text "X-Key", text "s" ∷ []) ∷ [];
      }
      ∷ record other {
        asset_transfer_method = text "eip3009";
        pay_to = text "t";
        facilitator_header = (text "Authorization", text "k" ∷ []) ∷ [];
      }
      ∷ [];
  rules =
      record site { price_atomic = (text "solana:1", 1250000) ∷ (text "solana:2", 125) ∷ [] } ∷ [];
}

validates : validate_payments platform given ≡ ok checked
unfolding validate_payments check_facilitator_url is_http parse_headers parse_header is_http_token
    is_token_char facilitator_reserved_headers check_pay_to is_evm_address is_hex check_rails
    check_rail filled own_facilitator is_transfer_method check_rules check_rule price_rails
    parse_price parts trim_prefix zeros is_other set_string magnitude digits_from digit check_paths
    count insert any contains has_prefix cut trim_space trim_left str_eq text
validates = refl

reads_price : parse_price (text "$0.05") (pos 6) ≡ ok 50000
unfolding parse_price parts trim_prefix zeros is_other set_string magnitude digits_from digit any
    cut trim_space trim_left text
reads_price = refl

parse_price_iff_example :
    (parse_price (text "$0.05") (pos 6) ≡ ok 50000) ↔ IsPrice (text "$0.05") 6 50000
parse_price_iff_example = parse_price_iff (text "$0.05") 6 50000

validate_payments-Pairs_example :
    (global : Map (List Str)) × (parse_header_list platform (text "X-Key: s" ∷ []) ≡ ok global)
    × Pairs
        (λ x rl.
          IsTrusted platform rl.facilitator × IsChecked platform (text "https://f") global x rl)
        (base ∷ other ∷ [])
        checked.rails
validate_payments-Pairs_example = validate_payments-Pairs platform given checked validates

validate_payments-OffersAll_example : All (OffersAll (text "t") 300 checked.rails) checked.rules
validate_payments-OffersAll_example =
    validate_payments-OffersAll platform given checked (text "t") 300 validates
