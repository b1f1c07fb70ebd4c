-- ===== src/Payment/Store/Trace.antt =====
-- Sequences of store operations by any number of processes.
use anteroom.Common.{Option, some, List, [], ◌∷◌, ◌≡◌, ◌≢◌, Time}
use anteroom.Common.Text.{Str}
use anteroom.Payment.Store.{Grant, Json, Disk, begin, release, commit}
use anteroom.Payment.Store.Bolt.{Bucket}

-- One call of an operation, with what it meets.
pub data Call : Type 0 where
  begins : Str → Option Str → Time → Call
  releases : Str → Str → Call
  commits : Str → Str → Grant → Call

unfoldable pub step : Json → Bucket → Disk × Call → Bucket
step json b (disk, begins id entropy now) = (begin json disk id entropy now b).0
step json b (disk, releases id lease) = (release json disk id lease b).0
step json b (disk, commits id lease g) = (commit json disk id lease g b).0

unfoldable pub run : Json → Bucket → List (Disk × Call) → Bucket
run json b [] = b
run json b (c ∷ cs) = run json (step json b c) cs

-- newLease never returns the empty string: it encodes sixteen bytes.
abbrev pub IsFresh : Disk × Call → Type 0
IsFresh (disk, begins id entropy now) = (l : Str) → entropy ≡ some l → l ≢ []
IsFresh (disk, releases id lease) = Unit
IsFresh (disk, commits id lease g) = Unit
