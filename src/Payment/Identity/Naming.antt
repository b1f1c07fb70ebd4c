-- ===== src/Payment/Identity/Naming.antt =====
-- authorization and ID: what identifies a payment.
use anteroom.Common.{◌≡◌, sym, ap, ◌∙◌, ◌↔◌, ◌⊎◌, inl, inr, none, some, List, arith, Option-cases}
use anteroom.Common.Text.{Str, str_eq_iff, to_lower}
use anteroom.Common.Result.{ok, Result-cases}
use anteroom.Common.Map.{Map, lookup}
use anteroom.Payment.Wire.{Requirements, Payload, transfer_method}
use anteroom.Payment.Identity.{
  AuthJson, AuthIdentity, permit2_key, eip3009_key, auth_key_for, authorization, selected, at_key,
  canonical_integer, payment_id, identity_fields,
}

-- The authorization that the chain would consume under `method`, and its identity.
pub record IsSelected (j : AuthJson) (payload method : Str) (a : AuthIdentity) : Type 0 where
  pub obj : Map Str
  pub body : Str
  pub from : Str
  pub nonce : Str
  pub parsed : j.fields payload ≡ some obj
  pub alone : (lookup permit2_key obj ≡ none) ⊎ (lookup eip3009_key obj ≡ none)
  pub present : lookup (auth_key_for method) obj ≡ some body
  pub read : j.identity body ≡ some (from, nonce)
  pub key : a.method ≡ auth_key_for method
  pub lowered : a.from ≡ to_lower from
  pub canonical : canonical_integer nonce ≡ some a.nonce

selected-eq-ok :
    (j : AuthJson) (key raw : Str) (a : AuthIdentity)
    → selected j key raw ≡ ok (some a)
    → (from : Str) × (nonce : Str) × (j.identity raw ≡ some (from, nonce))
      × (a.method ≡ key)
      × (a.from ≡ to_lower from)
      × (canonical_integer nonce ≡ some a.nonce)
unfolding selected
selected-eq-ok j key raw a h = elim (Option-cases (j.identity raw)) [
  | inl e ↦ absurd (ground (arith, e))
  | inr ((from, nonce), e) ↦ elim (Option-cases (canonical_integer nonce)) [
    | inl f ↦ absurd (ground (arith, e, f))
    | inr (n, f) ↦
        (from, nonce, e, ground (arith, e, f), ground (arith, e, f), ground (arith, e, f))
  ]
]

at_key-eq-ok :
    (j : AuthJson) (key : Str) (obj : Map Str) (a : AuthIdentity)
    → at_key j key obj ≡ ok (some a)
    → (raw : Str) × (lookup key obj ≡ some raw) × (selected j key raw ≡ ok (some a))
unfolding at_key
at_key-eq-ok j key obj a h = elim (Option-cases (lookup key obj)) [
  | inl e ↦ absurd (ground (arith, e))
  | inr (raw, e) ↦ (raw, e, ground arith)
]

authorization-parts :
    (j : AuthJson) (payload method : Str) (obj : Map Str) (a : AuthIdentity)
    → j.fields payload ≡ some obj
    → authorization j payload method ≡ ok (some a)
    → ((lookup permit2_key obj ≡ none) ⊎ (lookup eip3009_key obj ≡ none))
      × (at_key j (auth_key_for method) obj ≡ ok (some a))
unfolding authorization
authorization-parts j payload method obj a e h = ground (
  arith,
  str_eq_iff permit2_key (auth_key_for method),
  str_eq_iff eip3009_key (auth_key_for method),
)

-- An authorization is identified by the one object that the server's transfer method selects, read
-- with its address in lower case and its nonce in canonical form; a payload that carries both kinds of
-- object is never identified.
pub authorization-IsSelected :
    (j : AuthJson) (payload method : Str) (a : AuthIdentity)
    → authorization j payload method ≡ ok (some a)
    → IsSelected j payload method a
unfolding authorization
authorization-IsSelected j payload method a h = elim (Option-cases (j.fields payload)) [
  | inl e ↦ absurd (ground (arith, e))
  | inr (obj, e) ↦
      let (alone, at) = authorization-parts j payload method obj a e h in
      let (body, present, sel) = at_key-eq-ok j (auth_key_for method) obj a at in
      let (from, nonce, read, key, lowered, canonical) =
        selected-eq-ok j (auth_key_for method) body a sel in
      record {
        obj = obj;
        body = body;
        from = from;
        nonce = nonce;
        parsed = e;
        alone = alone;
        present = present;
        read = read;
        key = key;
        lowered = lowered;
        canonical = canonical;
      }
]

module _ (j : AuthJson) (digest : List Str → Str) where
  payment_id-eq-ok :
      (p : Payload) (req : Requirements) (id : Str)
      → payment_id j digest p req ≡ ok id
      → (a : AuthIdentity) × (authorization j p.payload (transfer_method req) ≡ ok (some a))
        × (id ≡ digest (identity_fields req a))
  unfolding payment_id
  payment_id-eq-ok p req id h =
      elim (Result-cases (authorization j p.payload (transfer_method req))) [
        | inl (none, e) ↦ absurd (ground (arith, e))
        | inl (some a, e) ↦ (a, e, ground (arith, e))
        | inr (x, e) ↦ absurd (ground (arith, e))
      ]

  fields_agree :
      (r s : Requirements) (a b : AuthIdentity)
      → identity_fields r a ≡ identity_fields s b
      → (r.scheme ≡ s.scheme)
        × (r.network ≡ s.network)
        × (to_lower r.asset ≡ to_lower s.asset)
        × (a ≡ b)
  unfolding identity_fields
  fields_agree r s a b h = ground arith

  -- With a digest that does not collide, two identified payments have one identifier exactly when
  -- they agree in scheme, network, token contract up to case, and in the identity of the authorization.
  pub payment_id_iff :
      ((xs ys : List Str) → digest xs ≡ digest ys → xs ≡ ys)
      → (p q : Payload) (r s : Requirements) (id id' : Str) → payment_id j digest p r ≡ ok id
      → payment_id j digest q s ≡ ok id'
      → (a : AuthIdentity) × (b : AuthIdentity) × IsSelected j p.payload (transfer_method r) a
        × IsSelected j q.payload (transfer_method s) b
        × ((id ≡ id') ↔ (
            (r.scheme ≡ s.scheme)
            × (r.network ≡ s.network)
            × (to_lower r.asset ≡ to_lower s.asset)
            × (a ≡ b)))
  unfolding identity_fields
  payment_id_iff injective p q r s id id' h h' =
      let (a, ha, e) = payment_id-eq-ok p r id h in
      let (b, hb, e') = payment_id-eq-ok q s id' h' in
      (
        a,
        b,
        authorization-IsSelected j p.payload (transfer_method r) a ha,
        authorization-IsSelected j q.payload (transfer_method s) b hb,
        (
          λ same. fields_agree r s a b (injective _ _ (sym e ∙ same ∙ e')),
          λ (n, w, c, d). e ∙ ap digest (ground arith) ∙ sym e',
        ),
      )
