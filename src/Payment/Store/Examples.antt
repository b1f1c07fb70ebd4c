-- ===== src/Payment/Store/Examples.antt =====
-- Tests of the grant store, and its theorems on a run of two attempts.
use anteroom.Common.{
  ◌*◌, ◌<◌, ◌≡◌, refl, ◌≢◌, inl, true, false, Option, none, some, List, [], ◌∷◌, arith, All, second,
  pos, Time, unix, ltb_ℤ, if◌then◌else◌,
}
use anteroom.Common.Text.{Str, text, str_eq}
use anteroom.Common.Result.{ok}
use anteroom.Payment.Store.{
  Grant, Disk, works, Begun, fresh, in_flight, recoverable, spent, decode_grant_record,
  check_record, begin, commit, update, claim, known, reserve, replace, validate_grant,
}
use anteroom.Payment.Store.Bolt.{Bucket, get, put, delete}
use anteroom.Payment.Store.Records.{slot, after_begin, after_commit, slot-begin, slot-commit}
use anteroom.Payment.Store.Codec.{lengths, lengths-Encodes}
use anteroom.Payment.Store.Trace.{Call, begins, releases, run, IsFresh}
use anteroom.Payment.Store.Settled.{settled_once}
use anteroom.Payment.Store.Reservation.{lease_excludes}

abbrev bought : Grant
bought = record {
  scope = text "s";
  audience = text "a";
  payer = [];
  transaction = text "t";
  amount = [];
  network = text "n";
  expires_at = pos 100;
}

abbrev attempt : Begun
attempt = record { state = fresh; lease = text "l"; existing = none }

abbrev first : Bucket
first = (begin lengths works (text "p") (some (text "l")) (10 * second) []).0

lease_named : (k : Str) → some (text "l") ≡ some k → k ≢ []
unfolding text
lease_named k e z = ground arith

begun : (begin lengths works (text "p") (some (text "l")) (10 * second) []).1 ≡ ok attempt
unfolding begin update claim known reserve decode_grant_record get put delete text lengths
begun = refl

-- Another process tries the same payment, and gives up its own lease on another one.
abbrev others : List (Disk × Call)
others =
    (works, begins (text "p") (some (text "m")) (20 * second))
    ∷ (works, releases (text "q") (text "l"))
    ∷ []

others-IsFresh : All IsFresh others
unfolding text
others-IsFresh = (λ l e z. ground arith, (tt, tt))

other_id : text "q" ≢ text "p"
unfolding text
other_id e = ground arith

lease_excludes_example :
    ((other : Option Str) (t : Time)
      → t < 40 * second
      → (begin lengths works (text "p") other t (run lengths first others)).1
        ≡ ok (record { state = in_flight; lease = []; existing = none }))
    × ((g : Grant)
        → validate_grant g ≡ true
        → (commit lengths works (text "p") (text "l") g (run lengths first others)).1
          ≡ ok (g, true))
lease_excludes_example =
    lease_excludes lengths lengths-Encodes works (text "p") (text "l") (some (text "l"))
      (10 * second) [] others lease_named begun others-IsFresh (omega arith, (inl other_id, tt))

stored : (commit lengths works (text "p") (text "l") bought first).1 ≡ ok (bought, true)
unfolding begin commit update claim known reserve replace decode_grant_record check_record get put
    delete text lengths validate_grant str_eq
stored = refl

abbrev final : Bucket
final = run lengths (commit lengths works (text "p") (text "l") bought first).0 others

p_named : text "p" ≢ []
unfolding text
p_named e = ground arith

settled_once_example :
    ((entropy : Option Str) (now : Time)
      → (begin lengths works (text "p") entropy now final).1
        ≡ ok (record {
          state = if ltb_ℤ (pos (unix now)) (pos 100) then recoverable else spent;
          lease = [];
          existing = some bought;
        }))
    × ((other : Str) (v : Grant)
        → validate_grant v ≡ true
        → (commit lengths works (text "p") other v final).1 ≡ ok (bought, false))
settled_once_example =
    settled_once lengths lengths-Encodes works (text "p") (text "l") bought bought first others
      p_named others-IsFresh stored

slot-begin_example :
    slot lengths first (text "p")
    ≡ after_begin works (some (text "l")) (10 * second) (slot lengths [] (text "p"))
unfolding text str_eq
slot-begin_example =
    slot-begin lengths lengths-Encodes works (text "p") (some (text "l")) (10 * second) []
      (text "p") lease_named

slot-commit_example :
    slot lengths (commit lengths works (text "p") (text "l") bought first).0 (text "p")
    ≡ after_commit works (text "l") bought (slot lengths first (text "p"))
unfolding text str_eq
slot-commit_example =
    slot-commit lengths lengths-Encodes works (text "p") (text "l") bought first (text "p")
