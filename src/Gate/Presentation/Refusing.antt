-- ===== src/Gate/Presentation/Refusing.antt =====
-- A presentation calls the verifier at most once and only behind the guards, keeps no reservation, and
-- gets the pass of a settled payment without a call.
use anteroom.Common.{
  ◌≡◌, refl, sym, ◌∙◌, ◌≢◌, ◌<◌, ◌+◌, ◌⊎◌, inl, inr, Bool, true, false, Option, none, some, [],
  arith, Time, pos, pos_part, ltb_ℤ, unix, from_unix, Bool-cases, subst,
}
use anteroom.Common.Text.{Str, str_eq, str_eq_iff}
use anteroom.Common.Result.{ok, Result-cases}
use anteroom.Http.{Request}
use anteroom.Payment.Wire.{Requirements, Payload}
use anteroom.Payment.Store.{
  Grant, payment_lease, Json, Disk, works, fails, fresh, Begun, begin, release, commit, update,
  claim, known, reserve,
}
use anteroom.Payment.Store.Bolt.{Bucket, get-put}
use anteroom.Payment.Store.Records.{
  Encodes, decode-reservation, Slot, absent, damaged, committed, reserved, after_commit,
  after_release, slot, slot-commit, slot-release,
}
use anteroom.Payment.Callback.{Report}
use anteroom.Payment.Guards.{allow}
use anteroom.Gate.Passes.{Cookie, request_audience, set_pass_cookie}
use anteroom.Gate.Decision.{pass_paid}
use anteroom.Gate.Presentation.{
  PricedRoute, PayDoor, grants, PayState, Meets, paid_pass, admitted, serve_paid_grant, bought,
  is_for, redeem, conclude, attempt, attempt_and_release, resume, identify, limit_key,
  serve_payment,
}
use anteroom.Gate.Presentation.Granting.{State-cases, Verdict-cases}

module _ {W : Type 0} (d : PayDoor W) (r : Request) (rule : PricedRoute) (m : Meets) where
  -- The only call a presentation makes.
  pub record Calls (p : Payload) (req : Requirements) (s t : PayState W) : Type 0 where
    pub within_limit : (allow s.limiter (limit_key d r) m.at_limit).1 ≡ true
    pub offered : d.verifiers.has_verifier req.network ≡ true
    pub called : t.world ≡ (d.verifiers.verify s.world p req).0

  attempt-Calls :
      (p : Payload) (req : Requirements) (id lease : Str) (s : PayState W)
      → ((attempt_and_release d r rule m p req id lease s).0.world ≡ s.world)
        ⊎ Calls p req s (attempt_and_release d r rule m p req id lease s).0
  unfolding attempt attempt_and_release
  attempt-Calls p req id lease s =
      elim (Bool-cases (allow s.limiter (limit_key d r) m.at_limit).1) [
        | inr over ↦ inl (ground (arith, over))
        | inl under ↦ elim (Bool-cases (d.verifiers.has_verifier req.network)) [
          | inr gone ↦ inl (ground (arith, under, gone))
          | inl there ↦ inr (record {
            within_limit = under;
            offered = there;
            called = ground (arith, under, there);
          })
        ]
      ]

  resume-Calls :
      (p : Payload) (req : Requirements) (id : Str) (begun : Begun) (s : PayState W)
      → ((resume d r rule m p req id begun s).0.world ≡ s.world)
        ⊎ ((begun.state ≡ fresh) × Calls p req s (resume d r rule m p req id begun s).0)
  unfolding resume
  resume-Calls p req id begun s = elim (State-cases begun.state) [
    | inl q ↦ inl (ground (arith, q))
    | inr (inl q) ↦ inl (ground (arith, q))
    | inr (inr (inl q)) ↦ inl (ground (arith, q))
    | inr (inr (inr q)) ↦
        let step : resume d r rule m p req id begun s
            ≡ attempt_and_release d r rule m p req id begun.lease s =
          ground (arith, q) in
        subst (λ x. (x.0.world ≡ s.world) ⊎ ((begun.state ≡ fresh) × Calls p req s x.0)) (sym step)
          (elim (attempt-Calls p req id begun.lease s) [ inl w ↦ inl w | inr c ↦ inr (q, c) ])
  ]

  -- A presentation leaves the verifiers as they are, or calls the verifier of its rail once: then it
  -- names a payment by an offered rail, the store has begun a fresh attempt on it, and the limiter
  -- allows the client.
  pub serve_payment-Calls :
      (presented : Str) (s : PayState W)
      → ((serve_payment d r rule presented m s).0.world ≡ s.world)
        ⊎ ((p : Payload) × (req : Requirements) × (id : Str) × (begun : Begun) × (identify d r rule
                presented
              ≡ ok (p, (req, id)))
            × ((begin d.json m.disk_begin id m.entropy m.at_begin s.bucket).1 ≡ ok begun)
            × (begun.state ≡ fresh)
            × Calls p req s (serve_payment d r rule presented m s).0)
  unfolding serve_payment
  serve_payment-Calls presented s = elim (Result-cases (identify d r rule presented)) [
    | inr (why, q) ↦ inl (ground (arith, q))
    | inl ((p, (req, id)), q) ↦
        let next = begin d.json m.disk_begin id m.entropy m.at_begin s.bucket in
        elim (Result-cases next.1) [
          | inr (e, f) ↦ inl (ground (arith, q, f))
          | inl (begun, f) ↦
              let t : PayState W = record s { bucket = next.0 } in
              let step : serve_payment d r rule presented m s ≡ resume d r rule m p req id begun t =
                ground (arith, q, f) in
              elim (resume-Calls p req id begun t) [
                | inl same ↦ inl (ground (arith, step, same))
                | inr (start, c) ↦ inr (
                  p,
                  req,
                  id,
                  begun,
                  q,
                  f,
                  start,
                  record {
                    within_limit = c.within_limit;
                    offered = c.offered;
                    called = ground (arith, step, c.called);
                  },
                )
              ]
        ]
  ]

  -- With a disk that works, a presentation that names a payment whose grant the store holds, for this
  -- route and authority and not expired when it is read and when it is granted, is answered with the
  -- pass of that grant if the keyring mints it, and changes neither the store nor the limiter nor the
  -- verifiers.
  pub recovers :
      (presented : Str) (s : PayState W) (p : Payload) (req : Requirements) (id : Str) (w : Grant)
      (c : Cookie)
      → m.disk_begin ≡ works
      → identify d r rule presented ≡ ok (p, (req, id))
      → id ≢ []
      → slot d.json s.bucket id ≡ committed w
      → w.scope ≡ rule.route.scope
      → w.audience ≡ request_audience d.gate.net r
      → ltb_ℤ (pos (unix m.at_begin)) w.expires_at ≡ true
      → m.at_grant < from_unix (pos_part w.expires_at)
      → set_pass_cookie d.gate r m.at_mint (paid_pass w) (from_unix (pos_part w.expires_at)) none
        ≡ ok c
      → serve_payment d r rule presented m s ≡ (s, (pass_paid, grants c w (admitted r)))
  unfolding serve_payment resume is_for serve_paid_grant begin update claim known slot
  recovers presented s p req id w c disk q named held scope audience live early minted = ground (
    arith,
    str_eq_iff w.scope rule.route.scope,
    str_eq_iff w.audience (request_audience d.gate.net r),
  )

-- The slot of an attempt's payment while the attempt runs: its reservation, or a grant.
abbrev is_held : Str → Slot → Bool
is_held lease absent = false
is_held lease damaged = false
is_held lease (reserved l u) = str_eq l lease
is_held lease (committed w) = true

-- A payment that no attempt holds.
abbrev pub IsSettled : Slot → Type 0
IsSettled s = (s ≡ absent) ⊎ ((w : Grant) × (s ≡ committed w))

held-commit :
    (disk : Disk) (lease : Str) (w : Grant) (s : Slot)
    → is_held lease s ≡ true
    → is_held lease (after_commit disk lease w s) ≡ true
held-commit fails lease w s h = h
held-commit works lease w absent h = h
held-commit works lease w damaged h = h
held-commit works lease w (reserved l u) h = ground arith
held-commit works lease w (committed v) h = h

held-release :
    (lease : Str) (s : Slot)
    → lease ≢ []
    → is_held lease s ≡ true
    → IsSettled (after_release works lease s)
held-release lease absent n h = inl refl
held-release lease damaged n h = absurd (ground arith)
held-release lease (reserved l u) n h = inl (ground arith)
held-release lease (committed w) n h = inr (w, refl)

-- A Begin that starts an attempt has reserved the payment under its lease.
begin-held :
    (json : Json) (laws : Encodes json) (disk : Disk) (id : Str) (entropy : Option Str) (now : Time)
    (b : Bucket) (begun : Begun)
    → ((k : Str) → entropy ≡ some k → k ≢ [])
    → (begin json disk id entropy now b).1 ≡ ok begun
    → begun.state ≡ fresh
    → (begun.lease ≢ [])
      × (is_held begun.lease (slot json (begin json disk id entropy now b).0 id) ≡ true)
unfolding begin update claim known reserve slot
begin-held json laws fails id entropy now b begun f e h = ground arith
begin-held json laws works id none now b begun f e h = ground arith
begin-held json laws works id (some k) now b begun f e h = ground (
  arith,
  f k refl,
  str_eq_iff id id,
  str_eq_iff k k,
  laws.encode-eq (record { lease = k; pending_until = pos (now + payment_lease); grant = none }),
  decode-reservation json laws k now,
  get-put id id
      (laws.raw (record { lease = k; pending_until = pos (now + payment_lease); grant = none })) b,
)

module _ {W : Type 0} (d : PayDoor W) (laws : Encodes d.json) (r : Request) (rule : PricedRoute)
    (m : Meets) where
  conclude-held :
      (id lease : Str) (req : Requirements) (res : Report) (b : Bucket)
      → is_held lease (slot d.json b id) ≡ true
      → is_held lease (slot d.json (conclude d r rule m id lease req res b).0 id) ≡ true
  unfolding redeem conclude
  conclude-held id lease req res b h =
      let w = bought d r rule m req res in
      let after = slot-commit d.json laws m.disk_commit id lease w b id in
      let held = held-commit m.disk_commit lease w (slot d.json b id) h in
      let kept : is_held lease (slot d.json (commit d.json m.disk_commit id lease w b).0 id)
          ≡ true =
        rw after (ground (arith, str_eq_iff id id, held)) in
      elim (Verdict-cases res.verdict) [
        | inl v ↦ ground (arith, v, kept)
        | inr (inl v) ↦ ground (arith, v)
        | inr (inr (inl v)) ↦ ground (arith, v)
        | inr (inr (inr (inl v))) ↦ ground (arith, v)
        | inr (inr (inr (inr v))) ↦ ground (arith, v)
      ]

  attempt-held :
      (p : Payload) (req : Requirements) (id lease : Str) (s : PayState W)
      → is_held lease (slot d.json s.bucket id) ≡ true
      → is_held lease (slot d.json (attempt d r rule m p req id lease s).0.bucket id) ≡ true
  unfolding attempt
  attempt-held p req id lease s h =
      ground (arith, conclude-held id lease req (d.verifiers.verify s.world p req).1 s.bucket h)

  attempt-IsSettled :
      (p : Payload) (req : Requirements) (id lease : Str) (s : PayState W)
      → m.disk_release ≡ works
      → lease ≢ []
      → is_held lease (slot d.json s.bucket id) ≡ true
      → IsSettled (slot d.json (attempt_and_release d r rule m p req id lease s).0.bucket id)
  unfolding attempt_and_release
  attempt-IsSettled p req id lease s disk n h =
      let b = (attempt d r rule m p req id lease s).0.bucket in
      let after : slot d.json (release d.json works id lease b).0 id
          ≡ after_release works lease (slot d.json b id) =
        slot-release d.json laws works id lease b id ∙ ground (arith, str_eq_iff id id) in
      subst (λ k. IsSettled (slot d.json (release d.json k id lease b).0 id)) (sym disk)
        (subst IsSettled (sym after)
          (held-release lease (slot d.json b id) n (attempt-held p req id lease s h)))

  -- A presentation that begins an attempt leaves its payment either unclaimed, so that it can be
  -- presented again, or with a grant: with a release that works, no reservation outlives the attempt.
  pub serve_payment-IsSettled :
      (presented : Str) (s : PayState W) (p : Payload) (req : Requirements) (id : Str)
      (begun : Begun)
      → ((l : Str) → m.entropy ≡ some l → l ≢ [])
      → m.disk_release ≡ works
      → identify d r rule presented ≡ ok (p, (req, id))
      → (begin d.json m.disk_begin id m.entropy m.at_begin s.bucket).1 ≡ ok begun
      → begun.state ≡ fresh
      → IsSettled (slot d.json (serve_payment d r rule presented m s).0.bucket id)
  unfolding serve_payment resume
  serve_payment-IsSettled presented s p req id begun new disk q f start =
      let (n, h) =
        begin-held d.json laws m.disk_begin id m.entropy m.at_begin s.bucket begun new f start in
      let t : PayState W = record s {
        bucket = (begin d.json m.disk_begin id m.entropy m.at_begin s.bucket).0;
      } in
      let step : serve_payment d r rule presented m s
          ≡ attempt_and_release d r rule m p req id begun.lease t =
        ground (arith, q, f, start) in
      subst (λ x. IsSettled (slot d.json x.0.bucket id)) (sym step)
        (attempt-IsSettled p req id begun.lease t disk n h)
