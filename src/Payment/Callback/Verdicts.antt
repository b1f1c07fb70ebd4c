-- ===== src/Payment/Callback/Verdicts.antt =====
-- What leaves the gate in a presentation, and what the verdict says of it.
use anteroom.Common.{
  ℕ, ◌+◌, ◌≡◌, sym, ap, subst, ◌∙◌, ◌≢◌, ◌≤◌, inl, inr, List, ◌++◌, arith, Bool-cases,
}
use mathlib.Core.List.{append-nil}
use anteroom.Common.Result.{Result-cases}
use anteroom.Payment.Wire.{Requirements, Payload}
use anteroom.Payment.Identity.{AuthJson, AuthIdentity}
use anteroom.Payment.Callback.{
  Endpoint, verifies, settles, SettleResponse, Facilitator, call, Verdict, valid, indeterminate,
  pending, Report, rejected, classify, Callback, Moments, settle_stage, verify_stage, present,
}
use anteroom.Payment.Callback.Calls.{repeat, call_bound, call-eq-ok}
use anteroom.Payment.Callback.Cases.{present-cases}

-- The requests of a presentation in order, and what the verdict may say after them.
pub record IsOrderly (sent : List Endpoint) (v : Verdict) : Type 0 where
  pub verify_calls : ℕ
  pub settle_calls : ℕ
  pub split : sent ≡ repeat verify_calls verifies ++ repeat settle_calls settles
  pub few : verify_calls ≤ 2
  pub once : settle_calls ≤ 1
  pub after_settle : settle_calls ≡ 1 → v ≢ indeterminate
  pub before_settle : settle_calls ≡ 0 → (v ≢ valid) × (v ≢ pending)

classify-ne-indeterminate :
    (auth : AuthIdentity) (req : Requirements) (sr : SettleResponse)
    → (classify auth req sr).verdict ≢ indeterminate
unfolding classify rejected
classify-ne-indeterminate auth req sr h = ground arith

-- A call of /settle, after k requests to /verify, in any state.
module _ (f : Facilitator) (m : Moments) (auth : AuthIdentity) (p : Payload)
    (req : Requirements) where
  settle_stage-IsOrderly :
      (k : ℕ) (c : Callback)
      → k ≤ 2
      → IsOrderly
          (repeat k verifies ++ (settle_stage f m auth p req c).1.0)
          (settle_stage f m auth p req c).1.1.verdict
  unfolding settle_stage
  settle_stage-IsOrderly k c le =
      let reply = call f.read_settle (λ sr. sr.error_reason) f settles p req 1 in
      let (l, same, le1) = call_bound f.read_settle (λ sr. sr.error_reason) f settles p req 1 in
      elim (Result-cases reply.1) [
        | inl (sr, e) ↦
            let sent =
              (call-eq-ok f.read_settle (λ sr'. sr'.error_reason) f settles sr p req 1 e).1 in
            record {
              verify_calls = k;
              settle_calls = l;
              split = ground (arith, same, e);
              few = le;
              once = le1;
              after_settle = λ z. ground (arith, e, classify-ne-indeterminate auth req sr);
              before_settle = λ z. absurd (sent (same ∙ ap (λ n. repeat n settles) z));
            }
        | inr (x, e) ↦ record {
          verify_calls = k;
          settle_calls = l;
          split = ground (arith, same, e);
          few = le;
          once = le1;
          after_settle = λ z. ground (arith, e);
          before_settle = λ z. (ground (arith, e), ground (arith, e));
        }
      ]

  verify_stage-IsOrderly :
      (c : Callback)
      → IsOrderly (verify_stage f m auth p req c).1.0 (verify_stage f m auth p req c).1.1.verdict
  unfolding verify_stage
  verify_stage-IsOrderly c =
      let reply = call f.read_verify (λ vr. vr.invalid_reason) f verifies p req 2 in
      let (k, same, le) = call_bound f.read_verify (λ vr. vr.invalid_reason) f verifies p req 2 in
      let none_sent = append-nil (repeat k verifies) in
      elim (Result-cases reply.1) [
        | inl (vr, e) ↦ elim (Bool-cases vr.is_valid) [
          | inl v ↦
              let rest = settle_stage-IsOrderly k c le in
              record {
                verify_calls = rest.verify_calls;
                settle_calls = rest.settle_calls;
                split = ground (arith, e, v, same, rest.split);
                few = rest.few;
                once = rest.once;
                after_settle = λ z. ground (arith, e, v, rest.after_settle z);
                before_settle = λ z. ground (arith, e, v, rest.before_settle z);
              }
          | inr v ↦ record {
            verify_calls = k;
            settle_calls = 0;
            split = ground (arith, same, e, v, none_sent);
            few = le;
            once = ground arith;
            after_settle = λ z. ground arith;
            before_settle = λ z. (ground (arith, e, v), ground (arith, e, v));
          }
        ]
        | inr (x, e) ↦ record {
          verify_calls = k;
          settle_calls = 0;
          split = ground (arith, same, e, none_sent);
          few = le;
          once = ground arith;
          after_settle = λ z. ground arith;
          before_settle = λ z. (ground (arith, e), ground (arith, e));
        }
      ]

module _ (j : AuthJson) (f : Facilitator) (m : Moments) (c : Callback) (p : Payload)
    (req : Requirements) where
  -- A presentation asks /verify at most twice and then /settle at most once. After a request to
  -- /settle the verdict is never that nothing was charged, and without one it is neither a payment
  -- nor a pending one.
  pub present-IsOrderly : IsOrderly (present j f m c p req).1.0 (present j f m c p req).1.1.verdict
  present-IsOrderly = elim (present-cases j f m c p req) [
    | inl (s, nothing, v) ↦ record {
      verify_calls = 0;
      settle_calls = 0;
      split = nothing;
      few = ground arith;
      once = ground arith;
      after_settle = λ z. ground arith;
      before_settle = λ z. (ground (arith, v), ground (arith, v));
    }
    | inr (auth, _, _, _, _, same) ↦
        subst (λ (r : List Endpoint × Report). IsOrderly r.0 r.1.verdict) (sym same)
          (verify_stage-IsOrderly f m auth p req (record c { in_flight = c.in_flight + 1 }))
  ]
