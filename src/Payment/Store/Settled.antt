-- ===== src/Payment/Store/Settled.antt =====
-- Any sequence of operations, by any number of processes: a settled payment stays settled.
use anteroom.Common.{
  ◌≡◌, ◌≢◌, true, false, Option, some, List, [], ◌∷◌, arith, if◌then◌else◌, pos, ltb_ℤ, Time, unix,
  All, ◌∙◌,
}
use anteroom.Common.Text.{Str, str_eq_iff}
use anteroom.Common.Result.{ok}
use anteroom.Payment.Store.{
  Grant, Json, Disk, works, fails, recoverable, spent, begin, commit, update, claim, known, replace,
  validate_grant,
}
use anteroom.Payment.Store.Trace.{Call, begins, releases, commits, step, run, IsFresh}
use anteroom.Payment.Store.Bolt.{Bucket, get-put}
use anteroom.Payment.Store.Records.{
  committed, Encodes, slot, slot-begin, slot-release, slot-commit, decode-committed,
}

module _ (json : Json) (laws : Encodes json) where
  step-committed :
      (b : Bucket) (c : Disk × Call) (id : Str) (g : Grant)
      → IsFresh c
      → slot json b id ≡ committed g
      → slot json (step json b c) id ≡ committed g
  unfolding step
  step-committed b (disk, begins k entropy now) id g f h =
      slot-begin json laws disk k entropy now b id f ∙ ground arith
  step-committed b (disk, releases k lease) id g f h =
      slot-release json laws disk k lease b id ∙ ground arith
  step-committed b (disk, commits k lease w) id g f h =
      slot-commit json laws disk k lease w b id ∙ ground arith

  run-committed :
      (b : Bucket) (cs : List (Disk × Call)) (id : Str) (g : Grant)
      → All IsFresh cs
      → slot json b id ≡ committed g
      → slot json (run json b cs) id ≡ committed g
  unfolding run
  run-committed b [] id g f h = h
  run-committed b (c ∷ cs) id g f h =
      run-committed (step json b c) cs id g f.1 (step-committed b c id g f.0 h)

  -- What Begin answers for a settled payment.
  begin-committed :
      (id : Str) (entropy : Option Str) (now : Time) (b : Bucket) (g : Grant)
      → id ≢ []
      → slot json b id ≡ committed g
      → (begin json works id entropy now b).1
        ≡ ok (record {
          state = if ltb_ℤ (pos (unix now)) g.expires_at then recoverable else spent;
          lease = [];
          existing = some g;
        })
  unfolding begin update claim known slot
  begin-committed id entropy now b g n h = ground arith

  commit-committed :
      (id lease : Str) (w : Grant) (b : Bucket) (g : Grant)
      → validate_grant w ≡ true
      → slot json b id ≡ committed g
      → (commit json works id lease w b).1 ≡ ok (g, false)
  unfolding commit update replace slot
  commit-committed id lease w b g v h = ground arith

  -- A Commit that stores a grant settles the payment.
  commit-stores :
      (disk : Disk) (id lease : Str) (g w : Grant) (b : Bucket)
      → (commit json disk id lease g b).1 ≡ ok (w, true)
      → (w ≡ g) × (slot json (commit json disk id lease g b).0 id ≡ committed g)
  unfolding commit update replace slot
  commit-stores fails id lease g w b h = ground arith
  commit-stores works id lease g w b h = ground (
    arith,
    str_eq_iff id id,
    laws.encode-eq (record { lease = []; pending_until = pos 0; grant = some g }),
    decode-committed json laws g,
    get-put id id (laws.raw (record { lease = []; pending_until = pos 0; grant = some g })) b,
  )

  -- One authorization buys one entitlement: after a Commit has stored a grant, whatever operations
  -- follow from any process, Begin answers with that grant, recoverable until it expires and spent
  -- from then on, and no later Commit stores another.
  pub settled_once :
      (disk : Disk) (id lease : Str) (g w : Grant) (b : Bucket) (cs : List (Disk × Call))
      → id ≢ []
      → All IsFresh cs
      → (commit json disk id lease g b).1 ≡ ok (w, true)
      → let later = run json (commit json disk id lease g b).0 cs in
        ((entropy : Option Str) (now : Time)
          → (begin json works id entropy now later).1
            ≡ ok (record {
              state = if ltb_ℤ (pos (unix now)) g.expires_at then recoverable else spent;
              lease = [];
              existing = some g;
            }))
        × ((other : Str) (v : Grant)
            → validate_grant v ≡ true
            → (commit json works id other v later).1 ≡ ok (g, false))
  settled_once disk id lease g w b cs n f h =
      let (same, stored) = commit-stores disk id lease g w b h in
      let kept = run-committed (commit json disk id lease g b).0 cs id g f stored in
      (
        λ entropy now. begin-committed id entropy now _ g n kept,
        λ other v valid. commit-committed id other v _ g valid kept,
      )
