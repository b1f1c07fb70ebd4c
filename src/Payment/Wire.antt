-- ===== src/Payment/Wire.antt =====
-- internal/payment/wire.go: requirements, payloads, and the decoding of PAYMENT-SIGNATURE.
use anteroom.Common.{
  ℕ, ◌*◌, ◌≡◌, ◌↔◌, refl, ap, subst, inl, inr, All, ◌++◌, Option-cases, ◌≢◌, ◌≤◌, ◌||◌, not, Option,
  none, some, List, [], ◌∷◌, ltb, if◌then◌else◌, ℤ, pos, eq_ℤ, length, arith,
}
use anteroom.Common.Text.{Str, text, is_empty}
use anteroom.Common.Result.{Result, ok, ◌>>=◌, ◌>>◌, guard, or_fail}
use anteroom.Common.Map.{Map, lookup}

-- A value of `extra`, of type `any`: only texts are read.
pub data Extra : Type 0 where
  string : Str → Extra
  other : Extra

pub record Requirements : Type 0 where
  pub scheme : Str
  pub network : Str
  pub asset : Str
  pub amount : Str
  pub pay_to : Str
  pub max_timeout_seconds : ℕ
  pub extra : Map Extra

abbrev default_method : Str
default_method = text "eip3009"

-- TransferMethod
unfoldable pub transfer_method : Requirements → Str
transfer_method r = elim (lookup (text "assetTransferMethod") r.extra) [
  | some (string m) ↦ if not (is_empty m) then m else default_method
  | some other ↦ default_method
  | none ↦ default_method
]

pub record Payload : Type 0 where
  pub x402_version : ℤ
  pub payload : Str
  pub accepted : Requirements
  pub raw : Str

abbrev pub version : ℕ
version = 2

abbrev pub max_payload_bytes : ℕ
max_payload_bytes = 8 * 1024

-- The base64 decoders in the order in which they are tried, and encoding/json at Payload. JSON
-- leaves the unexported field `raw` empty.
pub record WireCodec : Type 0 where
  pub decoders : List (Str → Option Str)
  pub unmarshal : Str → Option Payload

-- The ways in which a header fails to be a payment; all of them are ErrMalformedPayload.
pub data Malformed : Type 0 where
  empty too_long not_base64 body_too_long not_json no_rail nothing_signed wrong_version : Malformed

-- The first decoder that accepts the header.
unfoldable pub decode_any : List (Str → Option Str) → Str → Option Str
decode_any [] s = none
decode_any (d ∷ ds) s =
    let rest = decode_any ds s in elim (d s) [ some raw ↦ some raw | none ↦ rest ]

-- DecodePayload
unfoldable pub decode_payload : WireCodec → Str → Result Malformed Payload
decode_payload c header = do
  guard (not (is_empty header)) empty
  guard (not (ltb max_payload_bytes (length header))) too_long
  raw ← or_fail (decode_any c.decoders header) not_base64
  guard (not (ltb max_payload_bytes (length raw))) body_too_long
  p ← or_fail (c.unmarshal raw) not_json
  guard (not (is_empty p.accepted.scheme || is_empty p.accepted.network)) no_rail
  guard (not (is_empty p.payload)) nothing_signed
  guard (eq_ℤ p.x402_version (pos version)) wrong_version
  ok (record p { raw = raw })

-- The first decoder that reads the header reads it as `raw`.
pub record IsFirst (ds : List (Str → Option Str)) (header raw : Str) : Type 0 where
  pub before : List (Str → Option Str)
  pub decoder : Str → Option Str
  pub after : List (Str → Option Str)
  pub tried : ds ≡ before ++ decoder ∷ after
  pub failing : All (λ d. d header ≡ none) before
  pub reads : decoder header ≡ some raw

decode_any-IsFirst :
    (ds : List (Str → Option Str)) (header raw : Str)
    → decode_any ds header ≡ some raw
    → IsFirst ds header raw
unfolding decode_any
decode_any-IsFirst [] header raw h = absurd (ground arith)
decode_any-IsFirst (d ∷ ds) header raw h = elim (Option-cases (d header)) [
  | inr (x, e) ↦ record {
    before = [];
    decoder = d;
    after = ds;
    tried = refl;
    failing = tt;
    reads = ground (arith, e);
  }
  | inl e ↦
      let later = decode_any-IsFirst ds header raw (ground (arith, e)) in
      record {
        before = d ∷ later.before;
        decoder = later.decoder;
        after = later.after;
        tried = ap (λ t. d ∷ t) later.tried;
        failing = (e, later.failing);
        reads = later.reads;
      }
]

decode_any-append :
    (before : List (Str → Option Str)) (d : Str → Option Str) (after : List (Str → Option Str))
    (header raw : Str)
    → All (λ f. f header ≡ none) before
    → d header ≡ some raw
    → decode_any (before ++ d ∷ after) header ≡ some raw
unfolding decode_any
decode_any-append [] d after header raw fails e = ground (arith, e)
decode_any-append (f ∷ before) d after header raw fails e =
    ground (arith, fails.0, decode_any-append before d after header raw fails.1 e)

-- What a header is a presentation of: its body is what the first decoder reads, both are within 8 KiB,
-- and the payload is that body's JSON with the body itself; it names its rail, signs something, and
-- speaks version 2.
pub record IsPresentation (c : WireCodec) (header : Str) (p : Payload) : Type 0 where
  pub given : header ≢ []
  pub short : length header ≤ 8192
  pub verbatim : IsFirst c.decoders header p.raw
  pub small : length p.raw ≤ 8192
  pub decoded : Payload
  pub parsed : c.unmarshal p.raw ≡ some decoded
  pub same : p ≡ record decoded { raw = p.raw }
  pub has_scheme : p.accepted.scheme ≢ []
  pub has_network : p.accepted.network ≢ []
  pub is_signed : p.payload ≢ []
  pub current : p.x402_version ≡ pos 2

-- A header decodes to a payload exactly when it is a presentation of it.
pub decode_payload_iff :
    (c : WireCodec) (header : Str) (p : Payload)
    → (decode_payload c header ≡ ok p) ↔ IsPresentation c header p
unfolding decode_payload
decode_payload_iff c header p = (
  λ h. elim (Option-cases (decode_any c.decoders header)) [
    | inl e ↦ absurd (ground (arith, e))
    | inr (raw, e) ↦ elim (Option-cases (c.unmarshal raw)) [
      | inl f ↦ absurd (ground (arith, e, f))
      | inr (q, f) ↦
          let r : Payload = record q { raw = raw } in
          let same : r ≡ p = ground (arith, e, f) in
          subst (IsPresentation c header) same (record {
            given = ground (arith, h);
            short = ground (arith, h);
            verbatim = decode_any-IsFirst c.decoders header raw e;
            small = ground (arith, h, e);
            decoded = q;
            parsed = f;
            same = refl;
            has_scheme = ground (arith, e, f);
            has_network = ground (arith, e, f);
            is_signed = ground (arith, e, f);
            current = ground (arith, e, f);
          })
    ]
  ],
  λ n.
      let v = n.verbatim in
      let read : decode_any c.decoders header ≡ some p.raw =
        rw v.tried (decode_any-append v.before v.decoder v.after header p.raw v.failing v.reads) in
      ground (
        arith, read, n.given, n.short, n.small, n.parsed, n.same, n.has_scheme, n.has_network,
        n.is_signed, n.current,
      ),
)
