-- ===== src/Payment/Store/Reservation.antt =====
-- The lease: while it lasts, one attempt holds the payment.
use anteroom.Common.{
  ℕ, ◌+◌, ◌<◌, ◌≡◌, refl, ◌≢◌, ◌⊎◌, true, Option, none, some, List, [], ◌∷◌, arith, pos, Time, All,
  ◌∙◌,
}
use anteroom.Common.Text.{Str, str_eq_iff}
use anteroom.Common.Result.{ok}
use anteroom.Payment.Store.{
  Grant, Json, Disk, works, fails, fresh, in_flight, payment_lease, begin, commit, update, claim,
  known, reserve, replace, validate_grant,
}
use anteroom.Payment.Store.Bolt.{Bucket, get-put}
use anteroom.Payment.Store.Records.{
  reserved, Encodes, slot, slot-begin, slot-release, slot-commit, decode-reservation,
}
use anteroom.Payment.Store.Trace.{Call, begins, releases, commits, step, run, IsFresh}

-- A call before the lease's end that does not present the lease.
abbrev pub IsOther : Str → Str → ℕ → Disk × Call → Type 0
IsOther id lease end (disk, begins k entropy now) = now < end
IsOther id lease end (disk, releases k l) = (k ≢ id) ⊎ (l ≢ lease)
IsOther id lease end (disk, commits k l g) = (k ≢ id) ⊎ (l ≢ lease)

module _ (json : Json) (laws : Encodes json) (id lease : Str) (end : ℕ) where
  step-reserved :
      (b : Bucket) (c : Disk × Call)
      → IsFresh c
      → IsOther id lease end c
      → slot json b id ≡ reserved lease (pos end)
      → slot json (step json b c) id ≡ reserved lease (pos end)
  unfolding step
  step-reserved b (fails, begins k entropy now) f o h =
      slot-begin json laws fails k entropy now b id f ∙ ground arith
  step-reserved b (works, begins k none now) f o h =
      slot-begin json laws works k none now b id f ∙ ground arith
  step-reserved b (works, begins k (some l) now) f o h =
      slot-begin json laws works k (some l) now b id f ∙ ground arith
  step-reserved b (disk, releases k l) f o h =
      slot-release json laws disk k l b id ∙ ground (arith, str_eq_iff k id, str_eq_iff lease l)
  step-reserved b (disk, commits k l w) f o h =
      slot-commit json laws disk k l w b id ∙ ground (arith, str_eq_iff k id, str_eq_iff lease l)

  run-reserved :
      (b : Bucket) (cs : List (Disk × Call))
      → All IsFresh cs
      → All (IsOther id lease end) cs
      → slot json b id ≡ reserved lease (pos end)
      → slot json (run json b cs) id ≡ reserved lease (pos end)
  unfolding run
  run-reserved b [] f o h = h
  run-reserved b (c ∷ cs) f o h =
      run-reserved (step json b c) cs f.1 o.1 (step-reserved b c f.0 o.0 h)

module _ (json : Json) (laws : Encodes json) where
  -- A Begin that starts an attempt has reserved the payment under the new lease.
  begin-reserves :
      (disk : Disk) (id l : Str) (entropy : Option Str) (now : Time) (b : Bucket)
      → ((k : Str) → entropy ≡ some k → k ≢ [])
      → (begin json disk id entropy now b).1
        ≡ ok (record { state = fresh; lease = l; existing = none })
      → (id ≢ [])
        × (l ≢ [])
        × (slot json (begin json disk id entropy now b).0 id
            ≡ reserved l (pos (now + payment_lease)))
  unfolding begin update claim known reserve slot
  begin-reserves fails id l entropy now b f h = ground arith
  begin-reserves works id l none now b f h = ground arith
  begin-reserves works id l (some k) now b f h = ground (
    arith,
    f k refl,
    str_eq_iff id id,
    laws.encode-eq (record { lease = k; pending_until = pos (now + payment_lease); grant = none }),
    decode-reservation json laws k now,
    get-put id id
        (laws.raw (record { lease = k; pending_until = pos (now + payment_lease); grant = none }))
        b,
  )

  begin-reserved :
      (id l : Str) (end : ℕ) (entropy : Option Str) (now : Time) (b : Bucket)
      → id ≢ []
      → now < end
      → slot json b id ≡ reserved l (pos end)
      → (begin json works id entropy now b).1
        ≡ ok (record { state = in_flight; lease = []; existing = none })
  unfolding begin update claim known slot
  begin-reserved id l end entropy now b n h e = ground arith

  commit-reserved :
      (id l : Str) (end : ℕ) (g : Grant) (b : Bucket)
      → l ≢ []
      → validate_grant g ≡ true
      → slot json b id ≡ reserved l (pos end)
      → (commit json works id l g b).1 ≡ ok (g, true)
  unfolding commit update replace slot
  commit-reserved id l end g b n v e = ground (
    arith,
    str_eq_iff l l,
    laws.encode-eq (record { lease = []; pending_until = pos 0; grant = some g }),
  )

  -- After a Begin that starts an attempt, and while its lease lasts, operations that do not present
  -- the lease leave the reservation alone: any other Begin answers in flight, and the Commit of the
  -- attempt stores its grant.
  pub lease_excludes :
      (disk : Disk) (id l : Str) (entropy : Option Str) (now : Time) (b : Bucket)
      (cs : List (Disk × Call))
      → ((k : Str) → entropy ≡ some k → k ≢ [])
      → (begin json disk id entropy now b).1
        ≡ ok (record { state = fresh; lease = l; existing = none })
      → All IsFresh cs
      → All (IsOther id l (now + payment_lease)) cs
      → let later = run json (begin json disk id entropy now b).0 cs in
        ((other : Option Str) (t : Time)
          → t < now + payment_lease
          → (begin json works id other t later).1
            ≡ ok (record { state = in_flight; lease = []; existing = none }))
        × ((g : Grant)
            → validate_grant g ≡ true
            → (commit json works id l g later).1 ≡ ok (g, true))
  lease_excludes disk id l entropy now b cs f h fs os =
      let (named, held, reserved') = begin-reserves disk id l entropy now b f h in
      let kept =
        run-reserved json laws id l (now + payment_lease) (begin json disk id entropy now b).0 cs fs
          os reserved' in
      (
        λ other t early. begin-reserved id l (now + payment_lease) other t _ named early kept,
        λ g valid. commit-reserved id l (now + payment_lease) g _ held valid kept,
      )
