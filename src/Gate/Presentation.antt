-- ===== src/Gate/Presentation.antt =====
-- internal/gate/pay.go: the presentation of a payment, from the header to the paid pass.
pub mod Granting
pub mod Refusing
pub mod Verifiers
pub mod Settling
pub mod Offers
pub mod Again
pub mod Examples
use anteroom.Common.{
  ℕ, suc, ◌+◌, ◌-◌, ◌*◌, ◌/◌, ◌%◌, Bool, true, false, ◌&&◌, ◌||◌, not, Option, none, some, List, [],
  ◌∷◌, ◌++◌, ltb, leb, ◌==◌, any, length, if◌then◌else◌, ℤ, pos, pos_part, Time, Duration, second,
  unix, from_unix,
}
use anteroom.Common.Text.{Str, text, is_empty, str_eq, equal_fold, split, trim_space}
use anteroom.Common.Result.{Result, ok, err, ◌>>=◌, ◌>>◌, guard}
use anteroom.Common.Map.{Map, lookup}
use anteroom.Http.{Request, header, del, set}
use anteroom.Config.Payments.{Rail, Rule}
use anteroom.Bypass.{client_ip}
use anteroom.Token.{Pass, kind_paid}
use anteroom.Payment.Wire.{Requirements, Payload, WireCodec, Extra, string, decode_payload}
use anteroom.Payment.Identity.{AuthJson, decimals, match_rail, payment_id}
use anteroom.Payment.Store.{
  Grant, Json, Disk, Begun, State, fresh, in_flight, recoverable, spent, begin, release, commit,
}
use anteroom.Payment.Store.Bolt.{Bucket}
use anteroom.Payment.Guards.{Limiter, allow}
use anteroom.Payment.Callback.{Report, Verdict, valid, invalid, indeterminate, ambiguous, pending}
use anteroom.Gate.Decision.{
  Decision, pass_paid, pay_method_refused, pay_upgrade_refused, pay_malformed, pay_unidentified,
  pay_unoffered, pay_replay, pay_state_unavailable, pay_inflight, pay_rate_limited, pay_pending,
  pay_grant_failed, pay_grant_conflict, pay_rejected, pay_ambiguous, pay_infra,
}
use anteroom.Gate.Passes.{Gate, PaidRoute, Cookie, request_audience, set_pass_cookie}
use anteroom.Gate.Ladder.{paid_request}

-- paidRoute: a pricing rule with its compiled paths and its scope.
pub record PricedRoute : Type 0 where
  pub route : PaidRoute
  pub rule : Rule

-- The verifier of a network, of which the gate sees one operation; W is the state of all of them.
pub record Verifying (W : Type 0) : Type 0 where
  pub has_verifier : Str → Bool
  pub verify : W → Payload → Requirements → W × Report

pub record PayDoor (W : Type 0) : Type 0 where
  pub gate : Gate
  pub wire : WireCodec
  pub auth : AuthJson
  pub digest : List Str → Str
  pub json : Json
  pub pay_to : Str
  pub max_timeout_seconds : ℕ
  pub rails : List Rail
  pub verifiers : Verifying W

-- big.Int.String, with fuel for more digits than any number has.
unfoldable pub decimal : ℕ → Str
decimal n = decimals (suc n) n

-- The requirements that offer makes of a rail; a rail without a price is left out.
unfoldable pub offer_rail : Str → ℕ → Rail → ℕ → Requirements
unfolding decimal
offer_rail pay_to timeout rail amount = record {
  scheme = text "exact";
  network = rail.network;
  asset = rail.asset;
  amount = decimal amount;
  pay_to = if is_empty rail.pay_to then pay_to else rail.pay_to;
  max_timeout_seconds = timeout;
  extra =
      (text "name", string rail.asset_name)
      ∷ (text "version", string rail.asset_version)
      ∷ (text "assetTransferMethod", string rail.asset_transfer_method)
      ∷ [];
}

unfoldable pub offer_all : Str → ℕ → PricedRoute → List Rail → List Requirements
offer_all pay_to timeout rule [] = []
offer_all pay_to timeout rule (rail ∷ rails) =
    let rest = offer_all pay_to timeout rule rails in
    elim (lookup rail.network rule.rule.price_atomic) [
      | none ↦ rest
      | some amount ↦ offer_rail pay_to timeout rail amount ∷ rest
    ]

-- isUpgradeRequest
unfoldable pub is_upgrade_request : Request → Bool
is_upgrade_request r =
    not (is_empty (header r (text "Upgrade")))
    && any (λ field. equal_fold (trim_space field) (text "upgrade"))
        (split b',' (header r (text "Connection")))

-- paidExpiry: the next whole second.
unfoldable pub paid_expiry : Time → Duration → Time
paid_expiry now ttl =
    let exp = now + ttl in if exp % second == 0 then exp else exp / second * second + second

-- settlementField
unfoldable pub settlement_field : Str → Str
settlement_field v = if leb (length v) 128 then v else []

-- What the client gets: the offer, with a time to wait; the pending settlement; or the pass with the
-- receipt of the grant, in front of the upstream's response to the request.
pub data PayEffect : Type 0 where
  asks : Duration → PayEffect
  pends : Report → Duration → PayEffect
  grants : Cookie → Grant → Request → PayEffect

abbrev pub PayAnswer : Type 0
PayAnswer = Decision × PayEffect

-- The store, the limiter, and the verifiers.
pub record PayState (W : Type 0) : Type 0 where
  pub bucket : Bucket
  pub limiter : Limiter
  pub world : W

-- What a presentation meets: the disk at the three operations of the store, the entropy of a lease, and
-- the clock where it is read.
pub record Meets : Type 0 where
  pub disk_begin : Disk
  pub disk_commit : Disk
  pub disk_release : Disk
  pub entropy : Option Str
  pub at_begin : Time
  pub at_limit : Time
  pub at_settle : Time
  pub at_grant : Time
  pub at_mint : Time

-- The pass of a grant.
abbrev pub paid_pass : Grant → Pass
paid_pass g = record {
  v = pos 0;
  kid = [];
  kind = kind_paid;
  scope = g.scope;
  aud = [];
  iat = pos 0;
  exp = pos 0;
  ipp = [];
  uah = [];
  rt = pos 0;
  payer = settlement_field g.payer;
  tx = settlement_field g.transaction;
}

abbrev admitted : Request → Request
admitted r = paid_request r

-- servePaidGrant
unfoldable pub serve_paid_grant : Gate → Request → Meets → Grant → PayAnswer
unfolding settlement_field
serve_paid_grant g r m grant =
    let exp = from_unix (pos_part grant.expires_at) in
    if leb exp m.at_grant
    then (pay_replay, asks 0)
    else elim (set_pass_cookie g r m.at_mint (paid_pass grant) exp none) [
      | err e ↦ (pay_grant_failed, asks (2 * second))
      | ok cookie ↦ (pass_paid, grants cookie grant (admitted r))
    ]

-- `max retry least`
unfoldable pub at_least : Duration → Duration → Duration
at_least least retry = if ltb retry least then least else retry

module _ {W : Type 0} (d : PayDoor W) where
  -- The steps before the store, in order: the method, the decoding, the rail and the name of the
  -- payment. An error is the decision of the refusal.
  unfoldable pub identify :
      Request → PricedRoute → Str → Result Decision (Payload × (Requirements × Str))
  unfolding is_upgrade_request offer_all
  identify r rule presented = do
    guard (str_eq r.method (text "GET") || str_eq r.method (text "HEAD")) pay_method_refused
    guard (not (is_upgrade_request r)) pay_upgrade_refused
    p ← elim (decode_payload d.wire presented) [ ok p ↦ ok p | err e ↦ err pay_malformed ]
    req ← elim (match_rail p (offer_all d.pay_to d.max_timeout_seconds rule d.rails)) [
      | ok req ↦ ok req
      | err e ↦ err pay_unoffered
    ]
    id ← elim (payment_id d.auth d.digest p req) [ ok id ↦ ok id | err e ↦ err pay_unidentified ]
    ok (p, (req, id))

  -- The key of the client's bucket.
  unfoldable pub limit_key : Request → Str
  limit_key r = elim (client_ip d.gate.net d.gate.match r) [
    | some a ↦ d.gate.net.show_addr a
    | none ↦ text "unresolved-client"
  ]

  -- The grant that a settled payment buys.
  abbrev pub bought : Request → PricedRoute → Meets → Requirements → Report → Grant
  bought r rule m req res = record {
    scope = rule.route.scope;
    audience = request_audience d.gate.net r;
    payer = res.payer;
    transaction = res.tx;
    amount = res.amount;
    network = req.network;
    expires_at = pos (unix (paid_expiry m.at_settle rule.rule.paid_ttl));
  }

  -- Whether the grant is for this resource.
  unfoldable pub is_for : Request → PricedRoute → Grant → Bool
  is_for r rule g =
      str_eq g.scope rule.route.scope && str_eq g.audience (request_audience d.gate.net r)

  -- A payment that the verifier has settled.
  unfoldable pub redeem :
      Request
      → PricedRoute
      → Meets
      → Str
      → Str
      → Requirements
      → Report
      → Bucket
      → Bucket × PayAnswer
  unfolding is_for paid_expiry
  redeem r rule m id lease req res b =
      let (b', done) = commit d.json m.disk_commit id lease (bought r rule m req res) b in
      elim done [
        | err e ↦ (b', (pay_grant_failed, asks (2 * second)))
        | ok (grant, created) ↦
            if not (is_for r rule grant)
            then (b', (pay_grant_conflict, asks (2 * second)))
            else (b', serve_paid_grant d.gate r m grant)
      ]

  -- What follows from the report of the verifier.
  unfoldable pub conclude :
      Request
      → PricedRoute
      → Meets
      → Str
      → Str
      → Requirements
      → Report
      → Bucket
      → Bucket × PayAnswer
  conclude r rule m id lease req res b = elim res.verdict [
    | valid ↦ redeem r rule m id lease req res b
    | invalid ↦ (b, (pay_rejected, asks 0))
    | pending ↦ (
      b,
      (pay_pending, pends res (if ltb res.retry_after second then 5 * second else res.retry_after)),
    )
    | ambiguous ↦ (b, (pay_ambiguous, asks (at_least (2 * second) res.retry_after)))
    | indeterminate ↦ (b, (pay_infra, asks (at_least (5 * second) res.retry_after)))
  ]

  -- An attempt that holds a lease, up to the deferred release.
  unfoldable pub attempt :
      Request
      → PricedRoute
      → Meets
      → Payload
      → Requirements
      → Str
      → Str
      → PayState W
      → PayState W × PayAnswer
  attempt r rule m p req id lease s =
      let (limiter, allowed) = allow s.limiter (limit_key r) m.at_limit in
      let t : PayState W = record s { limiter = limiter } in
      if not allowed
      then (t, (pay_rate_limited, asks (10 * second)))
      else if not (d.verifiers.has_verifier req.network)
      then (t, (pay_infra, asks (5 * second)))
      else let (world, res) = d.verifiers.verify s.world p req in
        let (bucket, answer) = conclude r rule m id lease req res s.bucket in
        (record { bucket = bucket; limiter = limiter; world = world }, answer)

  -- The attempt with its deferred release.
  unfoldable pub attempt_and_release :
      Request
      → PricedRoute
      → Meets
      → Payload
      → Requirements
      → Str
      → Str
      → PayState W
      → PayState W × PayAnswer
  attempt_and_release r rule m p req id lease s =
      let (t, answer) = attempt r rule m p req id lease s in
      (record t { bucket = (release d.json m.disk_release id lease t.bucket).0 }, answer)

  -- What the store says of the payment.
  unfoldable pub resume :
      Request
      → PricedRoute
      → Meets
      → Payload
      → Requirements
      → Str
      → Begun
      → PayState W
      → PayState W × PayAnswer
  unfolding is_for
  resume r rule m p req id begun s = elim begun.state [
    | recoverable ↦ elim begun.existing [
      | some prior ↦
          if not (is_for r rule prior)
          then (s, (pay_replay, asks 0))
          else (s, serve_paid_grant d.gate r m prior)
      | none ↦ (s, (pay_replay, asks 0))
    ]
    | spent ↦ (s, (pay_replay, asks 0))
    | in_flight ↦ (s, (pay_inflight, asks (2 * second)))
    | fresh ↦ attempt_and_release r rule m p req id begun.lease s
  ]

  -- servePayment
  unfoldable pub serve_payment :
      Request → PricedRoute → Str → Meets → PayState W → PayState W × PayAnswer
  serve_payment r rule presented m s = elim (identify r rule presented) [
    | err why ↦ (s, (why, asks 0))
    | ok (p, (req, id)) ↦
        let (bucket, begun) = begin d.json m.disk_begin id m.entropy m.at_begin s.bucket in
        let t : PayState W = record s { bucket = bucket } in
        elim begun [
          | err e ↦ (t, (pay_state_unavailable, asks (5 * second)))
          | ok b ↦ resume r rule m p req id b t
        ]
  ]
