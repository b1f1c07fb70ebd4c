-- ===== src/Payment/Identity/Examples.antt =====
-- Tests of the naming of payments, and its theorems on one payment.
use anteroom.Common.{◌≡◌, refl, sym, ◌≢◌, ◌↔◌, none, some, List, [], ◌∷◌, arith, pos}
use anteroom.Common.Text.{Str, text, str_eq, to_lower, equal_fold, trim_space}
use anteroom.Common.Result.{ok}
use anteroom.Common.Map.{lookup}
use anteroom.Payment.Wire.{
  Requirements, Payload, transfer_method, WireCodec, decode_any, decode_payload, IsPresentation,
  decode_payload_iff,
}
use anteroom.Payment.Identity.{
  digit, digits_from, magnitude, set_string, decimals, show, base_of, read_integer,
  canonical_integer, AuthJson, AuthIdentity, auth_key_for, authorization, at_key, selected,
  payment_id, identity_fields, check_terms, match_rail,
}
use anteroom.Payment.Identity.Naming.{IsSelected, payment_id_iff}
use anteroom.Payment.Identity.Rails.{IsOffered, match_rail_iff}

reads_hex : read_integer (text " 0xFf ") ≡ some 255
unfolding read_integer base_of set_string magnitude digits_from digit trim_space text
reads_hex = refl

reads_decimal : read_integer (text "+255") ≡ some 255
unfolding read_integer base_of set_string magnitude digits_from digit trim_space text
reads_decimal = refl

reads_negative : read_integer (text "-1") ≡ none
unfolding read_integer base_of set_string magnitude digits_from digit trim_space text
reads_negative = refl

-- A rail without `extra`, and a reading of JSON that knows one authorization.
abbrev rail : Requirements
rail = record {
  scheme = text "exact";
  network = text "n";
  asset = text "a";
  amount = text "7";
  pay_to = text "t";
  max_timeout_seconds = 60;
  extra = [];
}

abbrev dear : Requirements
dear = record rail { network = text "m" }

abbrev paid : Payload
paid = record { x402_version = pos 2; payload = text "p"; accepted = rail; raw = text "j" }

abbrev json : AuthJson
json = record {
  fields = λ s. some ((text "authorization", text "b") ∷ []);
  identity = λ s. some (text "A", text "0x1");
}

abbrev named : AuthIdentity
named = record { method = text "authorization"; from = text "a"; nonce = text "1" }

is_named : authorization json (text "p") (text "eip3009") ≡ ok (some named)
unfolding authorization at_key selected auth_key_for canonical_integer read_integer base_of
    set_string magnitude digits_from digit show decimals trim_space text str_eq to_lower lookup
is_named = refl

-- A digest that does not collide: it marks every byte, and the end of each text.
abbrev ended : Str → Str → Str
ended [] rest = 256 ∷ rest
ended (c ∷ s) rest = 0 ∷ c ∷ ended s rest

abbrev digest : List Str → Str
digest [] = []
digest (s ∷ xs) = ended s (digest xs)

ended-injective : (s t xs ys : Str) → ended s xs ≡ ended t ys → (s ≡ t) × (xs ≡ ys)
ended-injective [] [] xs ys h = (refl, ground arith)
ended-injective [] (d ∷ t) xs ys h = absurd (ground arith)
ended-injective (c ∷ s) [] xs ys h = absurd (ground arith)
ended-injective (c ∷ s) (d ∷ t) xs ys h =
    let (e, f) = ended-injective s t xs ys (ground arith) in (ground arith, f)

ended-ne-nil : (s xs : Str) → ended s xs ≢ []
ended-ne-nil [] xs h = cc
ended-ne-nil (c ∷ s) xs h = cc

digest-injective : (xs ys : List Str) → digest xs ≡ digest ys → xs ≡ ys
digest-injective [] [] h = refl
digest-injective [] (t ∷ ys) h = absurd (ended-ne-nil t (digest ys) (sym h))
digest-injective (s ∷ xs) [] h = absurd (ended-ne-nil s (digest xs) h)
digest-injective (s ∷ xs) (t ∷ ys) h =
    let (e, f) = ended-injective s t (digest xs) (digest ys) h in
    let g = digest-injective xs ys f in cc

abbrev paid_id : Str
paid_id = digest (identity_fields rail named)

has_id : payment_id json digest paid rail ≡ ok paid_id
unfolding payment_id transfer_method authorization at_key selected auth_key_for canonical_integer
    read_integer base_of set_string magnitude digits_from digit show decimals trim_space text str_eq
    to_lower lookup identity_fields
has_id = refl

payment_id_iff_example :
    (a : AuthIdentity) × (b : AuthIdentity) × IsSelected json paid.payload (transfer_method rail) a
    × IsSelected json paid.payload (transfer_method rail) b
    × ((paid_id ≡ paid_id) ↔ (
        (rail.scheme ≡ rail.scheme)
        × (rail.network ≡ rail.network)
        × (to_lower rail.asset ≡ to_lower rail.asset)
        × (a ≡ b)))
payment_id_iff_example =
    payment_id_iff json digest digest-injective paid paid rail rail paid_id paid_id has_id has_id

match_rail_iff_example :
    (match_rail paid (dear ∷ rail ∷ []) ≡ ok rail) ↔ IsOffered paid (dear ∷ rail ∷ []) rail
match_rail_iff_example = match_rail_iff paid (dear ∷ rail ∷ []) rail

matches : match_rail paid (dear ∷ rail ∷ []) ≡ ok rail
unfolding match_rail check_terms str_eq text equal_fold to_lower
matches = refl

-- Decoders of which the first refuses every header.
abbrev wire : WireCodec
wire = record {
  decoders = (λ s. none) ∷ (λ s. some s) ∷ [];
  unmarshal = λ s. some (record paid { raw = [] });
}

decodes : decode_payload wire (text "j") ≡ ok paid
unfolding decode_payload decode_any text
decodes = refl

decode_payload_iff_example :
    (decode_payload wire (text "j") ≡ ok paid) ↔ IsPresentation wire (text "j") paid
decode_payload_iff_example = decode_payload_iff wire (text "j") paid
