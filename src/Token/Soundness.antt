-- ===== src/Token/Soundness.antt =====
-- Verify of Keyring: what an accepted pass proves, and which check speaks first.
use anteroom.Common.{
  ◌+◌, ◌≡◌, refl, ap, ◌∙◌, subst, ◌≢◌, ◌↔◌, ◌⊎◌, inl, inr, none, some, pos, ◌≤ℤ◌, ◌<ℤ◌, ltb_ℤ,
  leb_ℤ, eq_ℤ_iff, arith, Time, unix,
}
use anteroom.Common.Text.{Str, str_eq_iff, cut}
use anteroom.Common.Result.{Result, ok, err, ◌>>◌, guard, or_fail-past, guard-past, unless_err}
use anteroom.Token.{
  Pass, Crypto, Keyring, Error, malformed, unknown_kid, bad_signature, expired, from_future,
  version, validate, verify, tag, find_key, clock_skew,
}

module _ (c : Crypto) (kr : Keyring) (s : Str) where
  -- The text decodes to a payload that a key of the ring signed, and the payload to `p`.
  pub record IsSigned (p : Pass) : Type 0 where
    pub payload64 : Str
    pub tag64 : Str
    pub payload : Str
    pub key : Str
    pub parts : cut b'.' s ≡ some (payload64, tag64)
    pub decoded : c.b64_decode payload64 ≡ some payload
    pub signed : c.b64_decode tag64 ≡ some (tag c key payload)
    pub parsed : c.unmarshal payload ≡ some p
    pub current : p.v ≡ pos version
    pub known : find_key p.kid kr.keys ≡ some key

  pub record Accepts (now : Time) (p : Pass) : Type 0 where
    pub signed : IsSigned p
    pub valid : validate p ≡ none
    pub live : pos (unix now) <ℤ p.exp
    pub started : p.iat ≤ℤ pos (unix (now + clock_skew))

  bounds : Pass → Time → Result Error Pass
  bounds p now = do
    unless_err (validate p) malformed
    guard (ltb_ℤ (pos (unix now)) p.exp) expired
    guard (leb_ℤ p.iat (pos (unix (now + clock_skew)))) from_future
    ok p

  -- Past the signature only the payload itself decides.
  verify-signed : (now : Time) (p : Pass) → IsSigned p → verify c kr s now ≡ bounds p now
  unfolding verify bounds
  verify-signed now p w = rw (
    w.parts,
    w.decoded,
    w.signed,
    w.parsed,
    (eq_ℤ_iff p.v (pos version)).1 w.current,
    w.known,
    (str_eq_iff (tag c w.key w.payload) _).1 refl,
  )

  -- A result that is none of the three early refusals comes from a signed payload.
  verify-past :
      (now : Time) (r : Result Error Pass)
      → verify c kr s now ≡ r
      → r ≢ err malformed
      → r ≢ err unknown_kid
      → r ≢ err bad_signature
      → (p : Pass) × IsSigned p × (bounds p now ≡ r)
  unfolding verify bounds
  verify-past now r h m u b =
      let (parts, e₁, h₁) = or_fail-past _ _ _ h m in
      let (payload, e₂, h₂) = or_fail-past _ _ _ h₁ m in
      let (got, e₃, h₃) = or_fail-past _ _ _ h₂ m in
      let (p, e₄, h₄) = or_fail-past _ _ _ h₃ m in
      let (e₅, h₅) = guard-past _ _ _ h₄ m in
      let (key, e₆, h₆) = or_fail-past _ _ _ h₅ u in
      let (e₇, h₇) = guard-past _ _ _ h₆ b in
      (
        p,
        record {
          payload64 = parts.0;
          tag64 = parts.1;
          payload = payload;
          key = key;
          parts = e₁;
          decoded = e₂;
          signed = e₃ ∙ ap some ((str_eq_iff got _).0 e₇);
          parsed = e₄;
          current = (eq_ℤ_iff p.v (pos version)).0 e₅;
          known = e₆;
        },
        h₇,
      )

  bounds-eq-ok :
      (p q : Pass) (now : Time)
      → bounds p now ≡ ok q
      → (p ≡ q)
        × (validate p ≡ none)
        × (pos (unix now) <ℤ p.exp)
        × (p.iat ≤ℤ pos (unix (now + clock_skew)))
  unfolding bounds
  bounds-eq-ok p q now h = ground arith

  -- A pass is accepted exactly when a key of the ring signed it and it is well formed, not expired,
  -- and not issued more than the clock skew ahead.
  pub verify-eq-ok_iff : (now : Time) (p : Pass) → (verify c kr s now ≡ ok p) ↔ Accepts now p
  verify-eq-ok_iff now p = (sound, complete)
    where
      sound : verify c kr s now ≡ ok p → Accepts now p
      sound h =
          let (q, w, e) = verify-past now (ok p) h (λ x. cc) (λ x. cc) (λ x. cc) in
          let (same, v, l, f) = bounds-eq-ok q p now e in
          record {
            signed = subst IsSigned same w;
            valid = rw (← same) v;
            live = rw (← same) l;
            started = rw (← same) f;
          }

      complete : Accepts now p → verify c kr s now ≡ ok p
      complete a =
          verify-signed now p a.signed ∙ unfold bounds in ground (arith, a.live, a.started, a.valid)

  -- The clock is consulted only for a payload whose signature is good: an expiry or
  -- issued-in-the-future error shows that a key of the ring signed a well-formed pass.
  pub verify_clock_last :
      (now : Time)
      → (verify c kr s now ≡ err expired) ⊎ (verify c kr s now ≡ err from_future)
      → (p : Pass) × IsSigned p × (validate p ≡ none)
  unfolding bounds
  verify_clock_last now (inl h) =
      let (p, w, e) = verify-past now (err expired) h (λ x. cc) (λ x. cc) (λ x. cc) in
      (p, w, ground arith)
  verify_clock_last now (inr h) =
      let (p, w, e) = verify-past now (err from_future) h (λ x. cc) (λ x. cc) (λ x. cc) in
      (p, w, ground arith)
