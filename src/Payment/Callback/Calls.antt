-- ===== src/Payment/Callback/Calls.antt =====
-- call: how many requests leave the gate, and what a result rests on.
use anteroom.Common.{
  ℕ, zero, suc, ◌+◌, ◌≡◌, refl, ◌≢◌, ◌≤◌, ◌⊎◌, inl, inr, Bool, ◌&&◌, Option, none, some, List, [],
  ◌∷◌, ltb, arith, Option-cases, Bool-cases,
}
use anteroom.Common.Text.{Str}
use anteroom.Common.Result.{ok}
use anteroom.Payment.Wire.{Requirements, Payload}
use anteroom.Payment.Callback.{
  Endpoint, Reply, unanswered, answered, Facilitator, decode, attempts, call,
}

abbrev pub repeat {ℓ} : {A : Type ℓ} → ℕ → A → List A
repeat zero a = []
repeat (suc n) a = a ∷ repeat n a

-- At most n requests, all to e.
abbrev pub UpTo : ℕ → Endpoint → List Endpoint → Type 0
UpTo n e sent = (k : ℕ) × (sent ≡ repeat k e) × (k ≤ n)

pub Reply-cases :
    (r : Reply)
    → ((retry : Bool) × (r ≡ unanswered retry))
      ⊎ ((status : ℕ) × (body : Option Str) × (r ≡ answered status body))
Reply-cases (unanswered retry) = inl (retry, refl)
Reply-cases (answered status body) = inr (status, body, refl)

module _ {A : Type 0} (read : Str → Option A) (reason : A → Str) (f : Facilitator)
    (e : Endpoint) where
  pub attempts_bound : (body : Str) (n k : ℕ) → UpTo n e (attempts read reason f e body n k).0
  unfolding attempts
  attempts_bound body zero k = (0, refl, ground arith)
  attempts_bound body (suc n) k =
      let (j, eq, le) = attempts_bound body n (k + 1) in
      elim (Bool-cases (f.has_request e)) [
        | inr b ↦ (0, ground (arith, b), ground arith)
        | inl b ↦ elim (Reply-cases (f.reply e k body)) [
          | inl (retry, q) ↦ elim (Bool-cases (ltb 0 n && retry)) [
            | inl again ↦ (suc j, ground (arith, b, q, again, eq), ground (arith, le))
            | inr once ↦ (1, ground (arith, b, q, once), ground arith)
          ]
          | inr (status, raw, q) ↦ (1, ground (arith, b, q), ground arith)
        ]
      ]

  pub call_bound :
      (p : Payload) (req : Requirements) (n : ℕ) → UpTo n e (call read reason f e p req n).0
  unfolding call
  call_bound p req n = elim (Option-cases (f.marshal p.raw req)) [
    | inl none_ ↦ (0, ground (arith, none_), ground arith)
    | inr (body, eq) ↦
        let (k, same, le) = attempts_bound body n 1 in (k, ground (arith, eq, same), le)
  ]

-- A document that the facilitator sent to the endpoint, in reply to the gate's body.
pub record IsAnswer {A : Type 0} (read : Str → Option A) (f : Facilitator) (e : Endpoint)
    (body : Str) (a : A) : Type 0 where
  pub attempt : ℕ
  pub status : ℕ
  pub raw : Str
  pub answer : f.reply e attempt body ≡ answered status (some raw)
  pub reads : read raw ≡ some a

module _ {A : Type 0} (read : Str → Option A) (reason : A → Str) (f : Facilitator) (e : Endpoint)
    (a : A) where
  decode-eq-ok :
      (status : ℕ) (body : Option Str)
      → decode read reason status body ≡ ok a
      → (raw : Str) × (body ≡ some raw) × (read raw ≡ some a)
  unfolding decode
  decode-eq-ok status none h = absurd (ground arith)
  decode-eq-ok status (some raw) h = elim (Option-cases (read raw)) [
    | inl q ↦ absurd (ground (arith, q))
    | inr (b, q) ↦ (raw, refl, ground (arith, q))
  ]

  attempts-eq-ok :
      (body : Str) (n k : ℕ)
      → (attempts read reason f e body n k).1 ≡ ok a
      → IsAnswer read f e body a × ((attempts read reason f e body n k).0 ≢ [])
  unfolding attempts
  attempts-eq-ok body zero k h = absurd (ground arith)
  attempts-eq-ok body (suc n) k h = elim (Reply-cases (f.reply e k body)) [
    | inl (retry, q) ↦
        ((attempts-eq-ok body n (k + 1) (ground (arith, q))).0, λ z. ground (arith, q))
    | inr (status, b, q) ↦
        let (raw, same, reads) = decode-eq-ok status b (ground (arith, q)) in
        (
          record {
            attempt = k;
            status = status;
            raw = raw;
            answer = ground (arith, q, same);
            reads = reads;
          },
          λ z. ground (arith, q),
        )
  ]

  pub call-eq-ok :
      (p : Payload) (req : Requirements) (n : ℕ)
      → (call read reason f e p req n).1 ≡ ok a
      → ((body : Str) × (f.marshal p.raw req ≡ some body) × IsAnswer read f e body a)
        × ((call read reason f e p req n).0 ≢ [])
  unfolding call
  call-eq-ok p req n h = elim (Option-cases (f.marshal p.raw req)) [
    | inl q ↦ absurd (ground (arith, q))
    | inr (body, q) ↦
        let (reply, sent) = attempts-eq-ok body n 1 (ground (arith, q)) in
        ((body, q, reply), λ z. sent (ground (arith, q)))
  ]
