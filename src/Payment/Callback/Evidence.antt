-- ===== src/Payment/Callback/Evidence.antt =====
-- What a valid verdict rests on, and what definitive answers do to the breaker.
use anteroom.Common.{◌+◌, ◌≡◌, subst, ◌≢◌, ◌↔◌, ◌⊎◌, inl, inr, true, some, [], arith}
use anteroom.Common.Text.{Str, str_eq_iff, equal_fold}
use anteroom.Common.Result.{ok, Result-cases}
use anteroom.Payment.Guards.{succeed}
use anteroom.Payment.Wire.{Requirements, Payload, transfer_method}
use anteroom.Payment.Identity.{AuthJson, AuthIdentity, authorization}
use anteroom.Payment.Callback.{
  verifies, settles, SettleResponse, Facilitator, call, valid, indeterminate, ambiguous, Report,
  same_amount, rejected, classify, Callback, Moments, settle_stage, verify_stage, present,
}
use anteroom.Payment.Callback.Calls.{IsAnswer, call-eq-ok}
use anteroom.Payment.Callback.Cases.{present-cases}

-- A settlement response makes a payment valid exactly when it reports success with a transaction on
-- the requested network, and, where it names a payer or an amount, those of the authorization and of
-- the request.
pub classify-valid_iff :
    (auth : AuthIdentity) (req : Requirements) (sr : SettleResponse)
    → ((classify auth req sr).verdict ≡ valid) ↔ (
        (sr.success ≡ true)
        × (sr.transaction ≢ [])
        × (sr.network ≢ [])
        × (sr.network ≡ req.network)
        × ((sr.payer ≡ []) ⊎ (equal_fold sr.payer auth.from ≡ true))
        × ((sr.amount ≡ []) ⊎ (same_amount sr.amount req.amount ≡ true)))
unfolding classify rejected
classify-valid_iff auth req sr = (
  λ h. ground (arith, str_eq_iff sr.network req.network),
  λ h. ground (arith, str_eq_iff sr.network req.network),
)

classify-valid-fields :
    (auth : AuthIdentity) (req : Requirements) (sr : SettleResponse)
    → (classify auth req sr).verdict ≡ valid
    → ((classify auth req sr).tx ≡ sr.transaction)
      × ((classify auth req sr).network ≡ sr.network)
      × ((classify auth req sr).payer ≡ sr.payer)
unfolding classify rejected
classify-valid-fields auth req sr h = ground arith

module _ (f : Facilitator) (m : Moments) (auth : AuthIdentity) (p : Payload)
    (req : Requirements) where
  settle_stage-valid :
      (c : Callback)
      → (settle_stage f m auth p req c).1.1.verdict ≡ valid
      → (sr : SettleResponse) × ((call f.read_settle (λ x. x.error_reason) f settles p req 1).1
          ≡ ok sr)
        × ((settle_stage f m auth p req c).1.1 ≡ classify auth req sr)
  unfolding settle_stage
  settle_stage-valid c h =
      elim (Result-cases (call f.read_settle (λ sr. sr.error_reason) f settles p req 1).1) [
        | inl (sr, e) ↦ (sr, e, ground (arith, e))
        | inr (x, e) ↦ absurd (ground (arith, e))
      ]

  verify_stage-valid :
      (c : Callback)
      → (verify_stage f m auth p req c).1.1.verdict ≡ valid
      → (sr : SettleResponse) × ((call f.read_settle (λ x. x.error_reason) f settles p req 1).1
          ≡ ok sr)
        × ((verify_stage f m auth p req c).1.1 ≡ classify auth req sr)
  unfolding verify_stage
  verify_stage-valid c h =
      elim (Result-cases (call f.read_verify (λ vr. vr.invalid_reason) f verifies p req 2).1) [
        | inl (vr, e) ↦
            let (sr, q, r) = settle_stage-valid c (ground (arith, e)) in
            (sr, q, ground (arith, e, r))
        | inr (x, e) ↦ absurd (ground (arith, e))
      ]

-- The evidence that a valid payment rests on.
pub record IsSettled (j : AuthJson) (f : Facilitator) (p : Payload) (req : Requirements)
    (r : Report) : Type 0 where
  pub auth : AuthIdentity
  pub response : SettleResponse
  pub body : Str
  pub identified : authorization j p.payload (transfer_method req) ≡ ok (some auth)
  pub requested : f.marshal p.raw req ≡ some body
  pub reply : IsAnswer f.read_settle f settles body response
  pub succeeds : response.success ≡ true
  pub tx : r.tx ≡ response.transaction
  pub has_tx : r.tx ≢ []
  pub network : r.network ≡ req.network
  pub payer : (r.payer ≡ []) ⊎ (equal_fold r.payer auth.from ≡ true)
  pub amount : (response.amount ≡ []) ⊎ (same_amount response.amount req.amount ≡ true)

module _ (j : AuthJson) (f : Facilitator) (m : Moments) (c : Callback) (p : Payload)
    (req : Requirements) where
  -- A valid payment rests on one reply to /settle that reports success with the transaction, on the
  -- requested network, with the payer of the authorization and the requested amount if it names them.
  pub present-valid :
      (present j f m c p req).1.1.verdict ≡ valid → IsSettled j f p req (present j f m c p req).1.1
  present-valid h = elim (present-cases j f m c p req) [
    | inl (s, nothing, v) ↦ absurd (ground (arith, v))
    | inr (auth, identified, _, _, _, same) ↦
        let (sr, replied, report) =
          verify_stage-valid f m auth p req (record c { in_flight = c.in_flight + 1 })
            (ground (arith, same)) in
        let ((body, requested, reply), _) =
          call-eq-ok f.read_settle (λ x. x.error_reason) f settles sr p req 1 replied in
        let whole : (present j f m c p req).1.1 ≡ classify auth req sr =
          ground (arith, same, report) in
        let (succeeds, has_tx, has_net, network, payer, amount) =
          (classify-valid_iff auth req sr).0 (ground (arith, h, whole)) in
        let (tx, net, pay) = classify-valid-fields auth req sr (ground (arith, h, whole)) in
        record {
          auth = auth;
          response = sr;
          body = body;
          identified = identified;
          requested = requested;
          reply = reply;
          succeeds = succeeds;
          tx = ground (arith, whole, tx);
          has_tx = ground (arith, whole, tx);
          network = ground (arith, whole, net);
          payer =
              subst (λ (x : Str). (x ≡ []) ⊎ (equal_fold x auth.from ≡ true))
                (ground (arith, whole, pay)) payer;
          amount = amount;
        }
  ]

module _ (f : Facilitator) (m : Moments) (auth : AuthIdentity) (p : Payload)
    (req : Requirements) where
  settle_stage_closes :
      (c : Callback)
      → (settle_stage f m auth p req c).1.1.verdict ≢ ambiguous
      → (settle_stage f m auth p req c).0 ≡ record c { breaker = succeed c.breaker }
  unfolding settle_stage
  settle_stage_closes c h = ground arith

  verify_stage_closes :
      (c : Callback)
      → (verify_stage f m auth p req c).1.1.verdict ≢ ambiguous
      → (verify_stage f m auth p req c).1.1.verdict ≢ indeterminate
      → (verify_stage f m auth p req c).0 ≡ record c { breaker = succeed c.breaker }
  unfolding verify_stage
  verify_stage_closes c h i =
      elim (Result-cases (call f.read_verify (λ vr. vr.invalid_reason) f verifies p req 2).1) [
        | inl (vr, e) ↦ ground (arith, e, settle_stage_closes c)
        | inr (x, e) ↦ absurd (ground (arith, e))
      ]

module _ (j : AuthJson) (f : Facilitator) (m : Moments) (c : Callback) (p : Payload)
    (req : Requirements) where
  -- A presentation that reached the facilitator and was neither ambiguous nor indeterminate closes the
  -- breaker, also when the payment was rejected, and frees its slot.
  pub present_closes :
      (present j f m c p req).1.0 ≢ []
      → (present j f m c p req).1.1.verdict ≢ ambiguous
      → (present j f m c p req).1.1.verdict ≢ indeterminate
      → (present j f m c p req).0 ≡ record c { breaker = succeed c.breaker }
  present_closes reached a i = elim (present-cases j f m c p req) [
    | inl (s, nothing, v) ↦ absurd (reached nothing)
    | inr (auth, identified, _, _, state, same) ↦
        let closed =
          verify_stage_closes f m auth p req (record c { in_flight = c.in_flight + 1 })
            (ground (arith, same)) (ground (arith, same)) in
        ground (arith, state, closed)
  ]
