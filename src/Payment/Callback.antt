-- ===== src/Payment/Callback.antt =====
-- internal/payment/callback.go: verify, then settle, with the operator's facilitator, and the
-- classification of every outcome (the verdicts of internal/payment/verifier.go).
pub mod Calls
pub mod Cases
pub mod Verdicts
pub mod Evidence
pub mod Examples
use anteroom.Common.{
  ℕ, zero, suc, ◌+◌, ◌*◌, ◌≡◌, Bool, true, false, ◌&&◌, ◌||◌, not, Option, none, some, List, [],
  ◌∷◌, ◌++◌, ltb, leb, ◌==◌, if◌then◌else◌, Time, Duration, second,
}
use anteroom.Common.Text.{Str, text, is_empty, str_eq, equal_fold}
use anteroom.Common.Result.{Result, ok, err}
use anteroom.Payment.Guards.{Breaker, is_open, retry_after, fail, succeed}
use anteroom.Payment.Wire.{Requirements, Payload, transfer_method}
use anteroom.Payment.Identity.{AuthJson, AuthIdentity, authorization, canonical_integer}

pub data Endpoint : Type 0 where
  verifies settles : Endpoint

-- What one attempt gives: no response, after an error that `retryable` accepts or does not, or a
-- status and a body, where the reading of the body can fail.
pub data Reply : Type 0 where
  unanswered : Bool → Reply
  answered : ℕ → Option Str → Reply

pub record VerifyResponse : Type 0 where
  pub is_valid : Bool
  pub invalid_reason : Str
  pub payer : Str

pub record SettleResponse : Type 0 where
  pub success : Bool
  pub error_reason : Str
  pub payer : Str
  pub transaction : Str
  pub network : Str
  pub amount : Str

-- The facilitator and the packages between it and the gate: the request's JSON, the request of an
-- endpoint, the reply to an attempt with its number and body, and the responses' JSON.
pub record Facilitator : Type 0 where
  pub marshal : Str → Requirements → Option Str
  pub has_request : Endpoint → Bool
  pub reply : Endpoint → ℕ → Str → Reply
  pub read_verify : Str → Option VerifyResponse
  pub read_settle : Str → Option SettleResponse

-- Whether a failure is of the transport class; its message goes to the log only.
pub record Failure : Type 0 where
  pub transport : Bool

abbrev pub broken : Failure
broken = record { transport = true }

abbrev pub refused : Failure
refused = record { transport = false }

-- decode, at a response type with its reader and its reason.
module _ {A : Type 0} (read : Str → Option A) (reason : A → Str) where
  unfoldable pub decode : ℕ → Option Str → Result Failure A
  decode status body =
      if leb 300 status && ltb status 400
      then err broken
      else if status == 429
      then err broken
      else if leb 500 status
      then err broken
      else elim body [
        | none ↦ err broken
        | some raw ↦ elim (read raw) [
          | none ↦ err refused
          | some out ↦ if leb 400 status && is_empty (reason out) then err refused else ok out
        ]
      ]

  -- The attempts from number k on, with the endpoints they reached out to.
  unfoldable pub attempts : Facilitator → Endpoint → Str → ℕ → ℕ → List Endpoint × Result Failure A
  unfolding decode
  attempts f e body zero k = ([], err broken)
  attempts f e body (suc n) k =
      let rest = attempts f e body n (k + 1) in
      if not (f.has_request e) then ([], err refused) else elim (f.reply e k body) [
        | unanswered retry ↦ if ltb 0 n && retry then (e ∷ rest.0, rest.1) else (e ∷ [], err broken)
        | answered status raw ↦ (e ∷ [], decode status raw)
      ]

  -- call
  unfoldable pub call :
      Facilitator → Endpoint → Payload → Requirements → ℕ → List Endpoint × Result Failure A
  unfolding attempts
  call f e p req n = elim (f.marshal p.raw req) [
    | none ↦ ([], err refused)
    | some body ↦ attempts f e body n 1
  ]

pub data Verdict : Type 0 where
  valid invalid indeterminate ambiguous pending : Verdict

-- The gate's own sentences, and the words of the facilitator.
pub data Reason : Type 0 where
  no_authorization unavailable infra unknown_outcome unconfirmed : Reason
  said : Str → Reason

-- Result, without the error for the log.
pub record Report : Type 0 where
  pub verdict : Verdict
  pub reason : Reason
  pub payer : Str
  pub tx : Str
  pub amount : Str
  pub network : Str
  pub retry_after : Duration

abbrev pub plain : Verdict → Reason → Duration → Report
plain v why wait = record {
  verdict = v;
  reason = why;
  payer = [];
  tx = [];
  amount = [];
  network = [];
  retry_after = wait;
}

abbrev pub unclear : Report
unclear = plain ambiguous unknown_outcome 0

abbrev pub verify_attempts : ℕ
verify_attempts = 2

abbrev pub max_in_flight : ℕ
max_in_flight = 16

-- The amount that a settlement reports, if it reports one, is the one requested.
unfoldable pub same_amount : Str → Str → Bool
same_amount reported requested = elim (canonical_integer reported) [
  | none ↦ false
  | some a ↦ elim (canonical_integer requested) [ none ↦ false | some b ↦ str_eq a b ]
]

-- An empty amount stays empty.
unfoldable pub reported_amount : Str → Str
reported_amount s = if is_empty s then [] else elim (canonical_integer s) [ none ↦ [] | some a ↦ a ]

-- A settlement that the facilitator rejects.
unfoldable pub rejected : Requirements → SettleResponse → Report
rejected req sr =
    if str_eq sr.error_reason (text "settlement_pending")
    then (if is_empty sr.transaction || is_empty sr.network
        then unclear
        else if not (str_eq sr.network req.network)
        then unclear
        else record (plain pending unconfirmed (15 * second)) {
          payer = sr.payer;
          tx = sr.transaction;
          network = sr.network;
        })
    else record (plain invalid (said sr.error_reason) 0) { payer = sr.payer }

-- A settlement response, after the breaker is closed.
unfoldable pub classify : AuthIdentity → Requirements → SettleResponse → Report
classify auth req sr =
    if not sr.success
    then rejected req sr
    else if is_empty sr.transaction
    then unclear
    else if is_empty sr.network || not (str_eq sr.network req.network)
    then unclear
    else if not (is_empty sr.payer) && not (equal_fold sr.payer auth.from)
    then unclear
    else if not (is_empty sr.amount) && not (same_amount sr.amount req.amount)
    then unclear
    else record (plain valid (said []) 0) {
      payer = sr.payer;
      tx = sr.transaction;
      amount = reported_amount sr.amount;
      network = sr.network;
    }

-- The breaker, and the egress slots in use.
pub record Callback : Type 0 where
  pub breaker : Breaker
  pub in_flight : ℕ

-- The clock at the three points where a presentation reads it.
pub record Moments : Type 0 where
  pub at_open : Time
  pub at_fail : Time
  pub at_advice : Time

unfoldable pub count_failure : Failure → Time → Callback → Callback
count_failure x now c = if x.transport then record c { breaker = (fail c.breaker now).0 } else c

abbrev succeeded : Callback → Callback
succeeded c = record c { breaker = succeed c.breaker }

abbrev advised : Verdict → Reason → Moments → Callback → Report
advised v why m c = plain v why (retry_after c.breaker m.at_advice)

module _ (f : Facilitator) (m : Moments) (auth : AuthIdentity) (p : Payload)
    (req : Requirements) where
  -- The second half of Verify.
  unfoldable pub settle_stage : Callback → Callback × (List Endpoint × Report)
  settle_stage c =
      let (sent, res) = call f.read_settle (λ sr. sr.error_reason) f settles p req 1 in
      elim res [
        | err x ↦
            let c' = count_failure x m.at_fail c in
            (c', (sent, advised ambiguous unknown_outcome m c'))
        | ok sr ↦ (succeeded c, (sent, classify auth req sr))
      ]

  -- The first half, with a slot taken.
  unfoldable pub verify_stage : Callback → Callback × (List Endpoint × Report)
  verify_stage c =
      let (sent, res) =
        call f.read_verify (λ vr. vr.invalid_reason) f verifies p req verify_attempts in
      elim res [
        | err x ↦
            let c' = count_failure x m.at_fail c in (c', (sent, advised indeterminate infra m c'))
        | ok vr ↦
            if not vr.is_valid
            then (
              succeeded c,
              (sent, record (plain invalid (said vr.invalid_reason) 0) { payer = vr.payer }),
            )
            else let (c', (more, report)) = settle_stage c in (c', (sent ++ more, report))
      ]

-- Verify, with the requests that left the gate.
unfoldable pub present :
    AuthJson
    → Facilitator
    → Moments
    → Callback
    → Payload
    → Requirements
    → Callback × (List Endpoint × Report)
present j f m c p req = elim (authorization j p.payload (transfer_method req)) [
  | err e ↦ (c, ([], plain invalid no_authorization 0))
  | ok none ↦ (c, ([], plain invalid no_authorization 0))
  | ok (some auth) ↦
      if is_open c.breaker m.at_open
      then (c, ([], advised indeterminate unavailable m c))
      else if leb max_in_flight c.in_flight
      then (c, ([], plain indeterminate infra (2 * second)))
      else let (c', out) = verify_stage f m auth p req (record c { in_flight = c.in_flight + 1 }) in
        -- The deferred release of the slot.
        (record c' { in_flight = c.in_flight }, out)
]
