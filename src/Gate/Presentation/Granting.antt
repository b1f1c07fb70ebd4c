-- ===== src/Gate/Presentation/Granting.antt =====
-- A presentation that is answered with a pass: what the pass and the grant rest on.
use anteroom.Common.{
  ◌≡◌, refl, sym, ◌<◌, ◌⊎◌, inl, inr, Bool, true, false, Option, none, some, [], leb, arith, Time,
  pos, pos_part, from_unix, Bool-cases, Option-cases, ◌∙◌, subst,
}
use anteroom.Common.Text.{Str, str_eq_iff}
use anteroom.Common.Result.{ok, Result-cases}
use anteroom.Http.{Request}
use anteroom.Payment.Wire.{Requirements, Payload}
use anteroom.Payment.Store.{
  Grant, Json, Disk, works, fails, State, fresh, in_flight, recoverable, spent, Begun, begin,
  release, commit, update, claim, known, reserve, replace,
}
use anteroom.Payment.Store.Bolt.{Bucket, get-put}
use anteroom.Payment.Store.Records.{Encodes, committed, slot, slot-release, decode-committed}
use anteroom.Payment.Callback.{Report, Verdict, valid, invalid, indeterminate, ambiguous, pending}
use anteroom.Payment.Guards.{allow}
use anteroom.Gate.Passes.{Gate, Cookie, request_audience, set_pass_cookie}
use anteroom.Gate.Decision.{pass_paid}
use anteroom.Gate.Presentation.{
  PricedRoute, PayDoor, PayEffect, asks, pends, grants, PayAnswer, PayState, Meets, paid_pass,
  admitted, serve_paid_grant, bought, is_for, redeem, conclude, attempt, attempt_and_release,
  resume, identify, limit_key, serve_payment,
}

pub State-cases : (s : State) → (s ≡ recoverable) ⊎ ((s ≡ spent) ⊎ ((s ≡ in_flight) ⊎ (s ≡ fresh)))
State-cases recoverable = inl refl
State-cases spent = inr (inl refl)
State-cases in_flight = inr (inr (inl refl))
State-cases fresh = inr (inr (inr refl))

pub Verdict-cases :
    (v : Verdict)
    → (v ≡ valid) ⊎ ((v ≡ invalid) ⊎ ((v ≡ pending) ⊎ ((v ≡ ambiguous) ⊎ (v ≡ indeterminate))))
Verdict-cases valid = inl refl
Verdict-cases invalid = inr (inl refl)
Verdict-cases pending = inr (inr (inl refl))
Verdict-cases ambiguous = inr (inr (inr (inl refl)))
Verdict-cases indeterminate = inr (inr (inr (inr refl)))

-- The pass, and the request that goes on with it, are those of a grant that has not expired.
pub record Serves (g : Gate) (r : Request) (m : Meets) (w : Grant) (a : PayAnswer) : Type 0 where
  pub cookie : Cookie
  pub passes : a ≡ (pass_paid, grants cookie w (admitted r))
  pub live : m.at_grant < from_unix (pos_part w.expires_at)
  pub minted :
      set_pass_cookie g r m.at_mint (paid_pass w) (from_unix (pos_part w.expires_at)) none
      ≡ ok cookie

abbrev pub is_grant : PayEffect → Bool
is_grant (grants c w fwd) = true
is_grant (asks t) = false
is_grant (pends res t) = false

pub serve_paid_grant-Serves :
    (g : Gate) (r : Request) (m : Meets) (w : Grant)
    → is_grant (serve_paid_grant g r m w).1 ≡ true
    → Serves g r m w (serve_paid_grant g r m w)
unfolding serve_paid_grant
serve_paid_grant-Serves g r m w h =
    elim (Bool-cases (leb (from_unix (pos_part w.expires_at)) m.at_grant)) [
      | inl late ↦ absurd (ground (arith, late))
      | inr early ↦
          elim (Result-cases (
            set_pass_cookie g r m.at_mint (paid_pass w) (from_unix (pos_part w.expires_at)) none)) [
              | inr (e, q) ↦ absurd (ground (arith, early, q))
              | inl (c, q) ↦ record {
                cookie = c;
                passes = ground (arith, early, q);
                live = ground arith;
                minted = q;
              }
            ]
    ]

module _ (json : Json) (laws : Encodes json) where
  -- A Begin that answers with a grant has read it from the store.
  pub begin-committed :
      (disk : Disk) (id : Str) (entropy : Option Str) (now : Time) (b : Bucket) (begun : Begun)
      (w : Grant)
      → (begin json disk id entropy now b).1 ≡ ok begun
      → begun.existing ≡ some w
      → ((begin json disk id entropy now b).0 ≡ b) × (slot json b id ≡ committed w)
  unfolding begin update claim known reserve slot
  begin-committed fails id entropy now b begun w h e = ground arith
  begin-committed works id none now b begun w h e = ground arith
  begin-committed works id (some l) now b begun w h e = ground arith

  -- A Commit that answers with a grant leaves it in the store.
  pub commit-committed :
      (disk : Disk) (id lease : Str) (g : Grant) (b : Bucket) (done : Grant × Bool)
      → (commit json disk id lease g b).1 ≡ ok done
      → slot json (commit json disk id lease g b).0 id ≡ committed done.0
  unfolding commit update replace slot
  commit-committed fails id lease g b done h = ground arith
  commit-committed works id lease g b done h = ground (
    arith,
    str_eq_iff id id,
    laws.encode-eq (record { lease = []; pending_until = pos 0; grant = some g }),
    decode-committed json laws g,
    get-put id id (laws.raw (record { lease = []; pending_until = pos 0; grant = some g })) b,
  )

  pub release-committed :
      (disk : Disk) (id lease : Str) (b : Bucket) (w : Grant)
      → slot json b id ≡ committed w
      → slot json (release json disk id lease b).0 id ≡ committed w
  release-committed disk id lease b w h = slot-release json laws disk id lease b id ∙ ground arith

-- What a pass rests on: the store holds the grant of this payment, for this resource, and the pass is
-- that of the grant.
pub record Entitled {W : Type 0} (d : PayDoor W) (r : Request) (rule : PricedRoute) (m : Meets)
    (id : Str) (b : Bucket) (a : PayAnswer) : Type 0 where
  pub grant : Grant
  pub stored : slot d.json b id ≡ committed grant
  pub scope : grant.scope ≡ rule.route.scope
  pub audience : grant.audience ≡ request_audience d.gate.net r
  pub served : Serves d.gate r m grant a

module _ {W : Type 0} (d : PayDoor W) (laws : Encodes d.json) (r : Request) (rule : PricedRoute)
    (m : Meets) where
  entitle :
      (id : Str) (b : Bucket) (w : Grant)
      → slot d.json b id ≡ committed w
      → is_for d r rule w ≡ true
      → is_grant (serve_paid_grant d.gate r m w).1 ≡ true
      → Entitled d r rule m id b (serve_paid_grant d.gate r m w)
  unfolding is_for
  entitle id b w held here h = record {
    grant = w;
    stored = held;
    scope = (str_eq_iff w.scope rule.route.scope).0 (ground arith);
    audience = (str_eq_iff w.audience (request_audience d.gate.net r)).0 (ground arith);
    served = serve_paid_grant-Serves d.gate r m w h;
  }

  redeem-Entitled :
      (id lease : Str) (req : Requirements) (res : Report) (b : Bucket)
      → is_grant (redeem d r rule m id lease req res b).1.1 ≡ true
      → Entitled d r rule m id
          (redeem d r rule m id lease req res b).0
          (redeem d r rule m id lease req res b).1
  unfolding redeem
  redeem-Entitled id lease req res b h =
      let w = bought d r rule m req res in
      elim (Result-cases (commit d.json m.disk_commit id lease w b).1) [
        | inr (e, q) ↦ absurd (ground (arith, q))
        | inl (done, q) ↦ elim (Bool-cases (is_for d r rule done.0)) [
          | inr other ↦ absurd (ground (arith, q, other))
          | inl here ↦
              let step : redeem d r rule m id lease req res b ≡ (
                (commit d.json m.disk_commit id lease w b).0,
                serve_paid_grant d.gate r m done.0,
              ) =
                ground (arith, q, here) in
              subst (λ x. Entitled d r rule m id x.0 x.1) (sym step)
                (entitle id _ done.0
                  (commit-committed d.json laws m.disk_commit id lease w b done q) here
                  (ground (arith, step)))
        ]
      ]

  conclude-Entitled :
      (id lease : Str) (req : Requirements) (res : Report) (b : Bucket)
      → is_grant (conclude d r rule m id lease req res b).1.1 ≡ true
      → (res.verdict ≡ valid)
        × Entitled d r rule m id
            (conclude d r rule m id lease req res b).0
            (conclude d r rule m id lease req res b).1
  unfolding conclude
  conclude-Entitled id lease req res b h = elim (Verdict-cases res.verdict) [
    | inl v ↦
        let step : conclude d r rule m id lease req res b ≡ redeem d r rule m id lease req res b =
          ground (arith, v) in
        (
          v,
          subst (λ x. Entitled d r rule m id x.0 x.1) (sym step)
              (redeem-Entitled id lease req res b (ground (arith, step))),
        )
    | inr (inl v) ↦ absurd (ground (arith, v))
    | inr (inr (inl v)) ↦ absurd (ground (arith, v))
    | inr (inr (inr (inl v))) ↦ absurd (ground (arith, v))
    | inr (inr (inr (inr v))) ↦ absurd (ground (arith, v))
  ]

  Entitled-release :
      (id lease : Str) (b : Bucket) (a : PayAnswer)
      → Entitled d r rule m id b a
      → Entitled d r rule m id (release d.json m.disk_release id lease b).0 a
  Entitled-release id lease b a e = record {
    grant = e.grant;
    stored = release-committed d.json laws m.disk_release id lease b e.grant e.stored;
    scope = e.scope;
    audience = e.audience;
    served = e.served;
  }

  -- An attempt gives a pass only on a valid verdict of the verifier on this payment.
  attempt-Entitled :
      (p : Payload) (req : Requirements) (id lease : Str) (s : PayState W)
      → is_grant (attempt d r rule m p req id lease s).1.1 ≡ true
      → ((d.verifiers.verify s.world p req).1.verdict ≡ valid)
        × Entitled d r rule m id
            (attempt d r rule m p req id lease s).0.bucket
            (attempt d r rule m p req id lease s).1
  unfolding attempt
  attempt-Entitled p req id lease s h =
      elim (Bool-cases (allow s.limiter (limit_key d r) m.at_limit).1) [
        | inr over ↦ absurd (ground (arith, over))
        | inl under ↦ elim (Bool-cases (d.verifiers.has_verifier req.network)) [
          | inr gone ↦ absurd (ground (arith, under, gone))
          | inl there ↦
              let out =
                conclude d r rule m id lease req (d.verifiers.verify s.world p req).1 s.bucket in
              let bucket : (attempt d r rule m p req id lease s).0.bucket ≡ out.0 =
                ground (arith, under, there) in
              let answer : (attempt d r rule m p req id lease s).1 ≡ out.1 =
                ground (arith, under, there) in
              let (v, e) =
                conclude-Entitled id lease req (d.verifiers.verify s.world p req).1 s.bucket
                  (ground (arith, answer)) in
              (
                v,
                subst (λ x. Entitled d r rule m id x (attempt d r rule m p req id lease s).1)
                    (sym bucket) (subst (λ x. Entitled d r rule m id out.0 x) (sym answer) e),
              )
        ]
      ]

  -- A presentation is resumed to a pass from a grant that the store had, or by an attempt.
  resume-Entitled :
      (p : Payload) (req : Requirements) (id : Str) (begun : Begun) (s : PayState W)
      → ((w : Grant) → begun.existing ≡ some w → slot d.json s.bucket id ≡ committed w)
      → is_grant (resume d r rule m p req id begun s).1.1 ≡ true
      → (((w : Grant) × (begun.existing ≡ some w))
          ⊎ ((d.verifiers.verify s.world p req).1.verdict ≡ valid))
        × Entitled d r rule m id
            (resume d r rule m p req id begun s).0.bucket
            (resume d r rule m p req id begun s).1
  unfolding resume attempt_and_release
  resume-Entitled p req id begun s held h = elim (State-cases begun.state) [
    | inl q ↦ elim (Option-cases begun.existing) [
      | inl missing ↦ absurd (ground (arith, q, missing))
      | inr (w, e) ↦ elim (Bool-cases (is_for d r rule w)) [
        | inr other ↦ absurd (ground (arith, q, e, other))
        | inl here ↦
            let step : resume d r rule m p req id begun s ≡ (s, serve_paid_grant d.gate r m w) =
              ground (arith, q, e, here) in
            (
              inl (w, e),
              subst (λ x. Entitled d r rule m id x.0.bucket x.1) (sym step)
                  (entitle id s.bucket w (held w e) here (ground (arith, step))),
            )
      ]
    ]
    | inr (inl q) ↦ absurd (ground (arith, q))
    | inr (inr (inl q)) ↦ absurd (ground (arith, q))
    | inr (inr (inr q)) ↦
        let step : resume d r rule m p req id begun s
            ≡ attempt_and_release d r rule m p req id begun.lease s =
          ground (arith, q) in
        let (v, e) = attempt-Entitled p req id begun.lease s (ground (arith, step)) in
        (
          inr v,
          subst (λ x. Entitled d r rule m id x.0.bucket x.1) (sym step)
              (Entitled-release id begun.lease _ _ e),
        )
  ]

  -- A presentation is answered with a pass only if it names a payment, by an offered rail, for which
  -- the store already held a grant or the verifier's verdict was valid, and the store then holds the
  -- grant of the pass, which is for this route and authority and has not expired.
  pub serve_payment-Entitled :
      (presented : Str) (s : PayState W)
      → is_grant (serve_payment d r rule presented m s).1.1 ≡ true
      → (p : Payload) × (req : Requirements) × (id : Str) × (identify d r rule presented
          ≡ ok (p, (req, id)))
        × (((w : Grant) × (slot d.json s.bucket id ≡ committed w))
            ⊎ ((d.verifiers.verify s.world p req).1.verdict ≡ valid))
        × Entitled d r rule m id
            (serve_payment d r rule presented m s).0.bucket
            (serve_payment d r rule presented m s).1
  unfolding serve_payment
  serve_payment-Entitled presented s h = elim (Result-cases (identify d r rule presented)) [
    | inr (why, q) ↦ absurd (ground (arith, q))
    | inl ((p, (req, id)), q) ↦
        let next = begin d.json m.disk_begin id m.entropy m.at_begin s.bucket in
        elim (Result-cases next.1) [
          | inr (e, f) ↦ absurd (ground (arith, q, f))
          | inl (begun, f) ↦
              let t : PayState W = record s { bucket = next.0 } in
              let step : serve_payment d r rule presented m s ≡ resume d r rule m p req id begun t =
                ground (arith, q, f) in
              let known : (w : Grant)
                  → begun.existing ≡ some w
                  → (next.0 ≡ s.bucket) × (slot d.json s.bucket id ≡ committed w) =
                λ w e.
                  begin-committed d.json laws m.disk_begin id m.entropy m.at_begin s.bucket begun w
                    f e in
              let (source, e) =
                resume-Entitled p req id begun t
                  (λ w k.
                    subst (λ b. slot d.json b id ≡ committed w) (sym (known w k).0) (known w k).1)
                  (ground (arith, step)) in
              (
                p,
                req,
                id,
                q,
                elim source [ inl (w, k) ↦ inl (w, (known w k).1) | inr v ↦ inr v ],
                subst (λ x. Entitled d r rule m id x.0.bucket x.1) (sym step) e,
              )
        ]
  ]
