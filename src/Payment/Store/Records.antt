-- ===== src/Payment/Store/Records.antt =====
-- The store seen as a map from payments to slots, and each operation as a step of one slot.
use anteroom.Common.{
  ◌+◌, ◌≡◌, refl, ◌≢◌, true, ◌&&◌, not, Option, none, some, [], arith, if◌then◌else◌, ℤ, pos, ltb_ℤ,
  Time,
}
use anteroom.Common.Text.{Str, is_empty, str_eq, str_eq_iff}
use anteroom.Common.Result.{Result, ok, err}
use anteroom.Payment.Store.{
  Grant, GrantRecord, Json, Disk, works, fails, payment_lease, validate_grant, check_record,
  decode_grant_record, begin, release, commit, update, claim, known, reserve, drop_lease, replace,
  Error,
}
use anteroom.Payment.Store.Bolt.{Bucket, get, get-put, get-delete}

-- What the store says of one payment.
pub data Slot : Type 0 where
  absent damaged : Slot
  reserved : Str → ℤ → Slot
  committed : Grant → Slot

-- encoding/json writes every record and reads back what it wrote.
pub record Encodes (json : Json) : Type 0 where
  pub raw : GrantRecord → Str
  pub encode-eq : (r : GrantRecord) → json.encode r ≡ some (raw r)
  pub decode-raw : (r : GrantRecord) → json.decode (raw r) ≡ some r

abbrev pub slot_of_record : GrantRecord → Slot
slot_of_record r = elim r.grant [ some g ↦ committed g | none ↦ reserved r.lease r.pending_until ]

abbrev pub slot_of : Result Error GrantRecord → Slot
slot_of (ok r) = slot_of_record r
slot_of (err e) = damaged

unfoldable pub slot : Json → Bucket → Str → Slot
slot json b id = elim (get id b) [
  | none ↦ absent
  | some raw ↦ slot_of (decode_grant_record json raw)
]

-- Begin, at the slot of its payment.
abbrev pub after_begin : Disk → Option Str → Time → Slot → Slot
after_begin works (some lease) now absent = reserved lease (pos (now + payment_lease))
after_begin works (some lease) now (reserved l u) =
    if ltb_ℤ (pos now) u then reserved l u else reserved lease (pos (now + payment_lease))
after_begin disk entropy now s = s

-- Release
abbrev pub after_release : Disk → Str → Slot → Slot
after_release works lease (reserved l u) =
    if not (is_empty lease) && str_eq l lease then absent else reserved l u
after_release disk lease s = s

-- Commit
abbrev pub after_commit : Disk → Str → Grant → Slot → Slot
after_commit works lease g (reserved l u) =
    if validate_grant g && (not (is_empty lease) && str_eq l lease)
    then committed g
    else reserved l u
after_commit disk lease g s = s

module _ (json : Json) (laws : Encodes json) where
  pub decode-reservation :
      (lease : Str) (now : Time)
      → lease ≢ []
      → decode_grant_record json (
          laws.raw
            (record { lease = lease; pending_until = pos (now + payment_lease); grant = none }))
        ≡ ok (record { lease = lease; pending_until = pos (now + payment_lease); grant = none })
  unfolding decode_grant_record check_record
  decode-reservation lease now h =
      rw
        (laws.decode-raw
          (record { lease = lease; pending_until = pos (now + payment_lease); grant = none }))
        (ground arith)

  pub decode-committed :
      (g : Grant)
      → validate_grant g ≡ true
      → decode_grant_record json
          (laws.raw (record { lease = []; pending_until = pos 0; grant = some g }))
        ≡ ok (record { lease = []; pending_until = pos 0; grant = some g })
  unfolding decode_grant_record check_record
  decode-committed g h =
      rw (laws.decode-raw (record { lease = []; pending_until = pos 0; grant = some g }))
        (ground arith)

  -- Begin with a lease that is not empty takes the slot of its payment to `after_begin` of it, and
  -- leaves every other slot as it was.
  pub slot-begin :
      (disk : Disk) (id : Str) (entropy : Option Str) (now : Time) (b : Bucket) (j : Str)
      → ((l : Str) → entropy ≡ some l → l ≢ [])
      → slot json (begin json disk id entropy now b).0 j ≡ (
          if not (is_empty id) && str_eq id j
          then after_begin disk entropy now (slot json b j)
          else slot json b j)
  unfolding slot begin update claim known reserve
  slot-begin fails id entropy now b j fresh = ground arith
  slot-begin works id none now b j fresh = ground (arith, str_eq_iff id j)
  slot-begin works id (some lease) now b j fresh = ground (
    arith,
    str_eq_iff id j,
    laws.encode-eq
        (record { lease = lease; pending_until = pos (now + payment_lease); grant = none }),
    decode-reservation lease now,
    fresh lease refl,
    get-put id j
        (laws.raw
          (record { lease = lease; pending_until = pos (now + payment_lease); grant = none }))
        b,
  )

  -- Release takes the slot of its payment to `after_release` of it, and leaves every other slot as
  -- it was.
  pub slot-release :
      (disk : Disk) (id lease : Str) (b : Bucket) (j : Str)
      → slot json (release json disk id lease b).0 j
        ≡ (if str_eq id j then after_release disk lease (slot json b j) else slot json b j)
  unfolding slot release update drop_lease
  slot-release fails id lease b j = ground arith
  slot-release works id lease b j = ground (arith, str_eq_iff id j, get-delete id j b)

  -- Commit takes the slot of its payment to `after_commit` of it, and leaves every other slot as it
  -- was.
  pub slot-commit :
      (disk : Disk) (id lease : Str) (g : Grant) (b : Bucket) (j : Str)
      → slot json (commit json disk id lease g b).0 j
        ≡ (if str_eq id j then after_commit disk lease g (slot json b j) else slot json b j)
  unfolding slot commit update replace
  slot-commit fails id lease g b j = ground arith
  slot-commit works id lease g b j = ground (
    arith,
    str_eq_iff id j,
    laws.encode-eq (record { lease = []; pending_until = pos 0; grant = some g }),
    decode-committed g,
    get-put id j (laws.raw (record { lease = []; pending_until = pos 0; grant = some g })) b,
  )
