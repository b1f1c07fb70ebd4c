-- ===== src/Payment/Callback/Cases.antt =====
-- Verify: the two ways that a presentation goes.
use anteroom.Common.{◌+◌, ◌≡◌, ◌<◌, ◌⊎◌, inl, inr, false, none, some, [], leb, arith, Bool-cases}
use anteroom.Common.Result.{ok, Result-cases}
use anteroom.Payment.Guards.{is_open}
use anteroom.Payment.Wire.{Requirements, Payload, transfer_method}
use anteroom.Payment.Identity.{AuthJson, AuthIdentity, authorization}
use anteroom.Payment.Callback.{
  Facilitator, invalid, indeterminate, Callback, Moments, verify_stage, present,
}

module _ (j : AuthJson) (f : Facilitator) (m : Moments) (c : Callback) (p : Payload)
    (req : Requirements) where
  -- A presentation sends nothing and changes nothing, or is a verification in a free slot.
  pub present-cases :
      ((present j f m c p req).0 ≡ c
        × ((present j f m c p req).1.0 ≡ [])
        × (((present j f m c p req).1.1.verdict ≡ invalid)
            ⊎ ((present j f m c p req).1.1.verdict ≡ indeterminate)))
      ⊎ ((auth : AuthIdentity) × (authorization j p.payload (transfer_method req) ≡ ok (some auth))
          × (is_open c.breaker m.at_open ≡ false)
          × (c.in_flight < 16)
          × ((present j f m c p req).0
              ≡ record (verify_stage f m auth p req (record c { in_flight = c.in_flight + 1 })).0 {
                in_flight = c.in_flight;
              })
          × ((present j f m c p req).1
              ≡ (verify_stage f m auth p req (record c { in_flight = c.in_flight + 1 })).1))
  unfolding present
  present-cases = elim (Result-cases (authorization j p.payload (transfer_method req))) [
    | inr (x, e) ↦ inl (ground (arith, e), ground (arith, e), inl (ground (arith, e)))
    | inl (none, e) ↦ inl (ground (arith, e), ground (arith, e), inl (ground (arith, e)))
    | inl (some auth, e) ↦ elim (Bool-cases (is_open c.breaker m.at_open)) [
      | inl o ↦ inl (ground (arith, e, o), ground (arith, e, o), inr (ground (arith, e, o)))
      | inr o ↦ elim (Bool-cases (leb 16 c.in_flight)) [
        | inl b ↦
            inl (ground (arith, e, o, b), ground (arith, e, o, b), inr (ground (arith, e, o, b)))
        | inr b ↦
            inr (auth, e, o, ground (arith, b), ground (arith, e, o, b), ground (arith, e, o, b))
      ]
    ]
  ]
