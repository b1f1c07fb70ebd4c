-- ===== src/Payment/Store.antt =====
-- internal/payment/store.go: payment claims in a bbolt bucket. A transaction is atomic and its
-- writes are undone when its function fails, so an operation maps a bucket to a bucket, and processes
-- that share the file interleave whole operations.
pub mod Bolt
pub mod Records
pub mod Trace
pub mod Settled
pub mod Reservation
pub mod Codec
pub mod Examples
use anteroom.Common.{
  ℕ, ◌+◌, ◌*◌, ◌≡◌, Bool, true, false, ◌&&◌, ◌||◌, not, Option, none, some, List, [], ◌∷◌, ltb,
  if◌then◌else◌, ℤ, pos, leb_ℤ, ltb_ℤ, is_zero, Time, second, unix,
}
use anteroom.Common.Text.{Str, is_empty, str_eq}
use anteroom.Common.Result.{Result, ok, err, ◌>>=◌, ◌>>◌, guard, or_fail, unless_err}
use Bolt.{Bucket, get, put, delete}

pub record Grant : Type 0 where
  pub scope : Str
  pub audience : Str
  pub payer : Str
  pub transaction : Str
  pub amount : Str
  pub network : Str
  pub expires_at : ℤ

pub record GrantRecord : Type 0 where
  pub lease : Str
  pub pending_until : ℤ
  pub grant : Option Grant

-- encoding/json at the type of the records.
pub record Json : Type 0 where
  pub encode : GrantRecord → Option Str
  pub decode : Str → Option GrantRecord

-- BeginResult
pub data State : Type 0 where
  fresh in_flight recoverable spent : State

pub data Error : Type 0 where
  empty_id unavailable corrupt incomplete_grant no_entropy not_encoded disappeared changed : Error

abbrev pub payment_lease : ℕ
payment_lease = 30 * second

-- validateGrant: `true` is the nil error.
unfoldable pub validate_grant : Grant → Bool
validate_grant g = not (
    is_empty g.scope
    || (is_empty g.audience
        || (is_empty g.transaction || (is_empty g.network || leb_ℤ g.expires_at (pos 0)))))

unfoldable pub check_record : GrantRecord → Option GrantRecord
check_record rec = elim rec.grant [
  | some g ↦
      if not (is_empty rec.lease) || not (is_zero rec.pending_until)
      then none
      else if validate_grant g
      then some rec
      else none
  | none ↦ if is_empty rec.lease || leb_ℤ rec.pending_until (pos 0) then none else some rec
]

-- What a call of update meets: whether the file can be opened and the transaction committed.
pub data Disk : Type 0 where
  works fails : Disk

-- update, at a function that returns the bucket to write back.
unfoldable pub update {ℓ} :
    {A : Type ℓ} → Disk → Bucket → (Bucket → Result Error (Bucket × A)) → Bucket × Result Error A
update fails b fn = (b, err unavailable)
update works b fn = elim (fn b) [ ok (b', a) ↦ (b', ok a) | err e ↦ (b, err e) ]

pub record Begun : Type 0 where
  pub state : State
  pub lease : Str
  pub existing : Option Grant

module _ (json : Json) where
  unfoldable pub decode_grant_record : Str → Result Error GrantRecord
  decode_grant_record raw = do
    rec ← or_fail (json.decode raw) corrupt
    or_fail (check_record rec) corrupt

  -- Reserve the payment under a new lease. `entropy` is what newLease returns.
  unfoldable pub reserve : Str → Option Str → Time → Bucket → Result Error (Bucket × Begun)
  reserve id entropy now b = do
    lease ← or_fail entropy no_entropy
    let rec : GrantRecord = record {
      lease = lease;
      pending_until = pos (now + payment_lease);
      grant = none;
    }
    enc ← or_fail (json.encode rec) not_encoded
    ok (put id enc b, record { state = fresh; lease = lease; existing = none })

  -- The answer to a payment that the store knows.
  unfoldable pub known :
      Str → Option Str → Time → Bucket → GrantRecord → Result Error (Bucket × Begun)
  known id entropy now b rec = elim rec.grant [
    | some g ↦ ok (
      b,
      record {
        state = if ltb_ℤ (pos (unix now)) g.expires_at then recoverable else spent;
        lease = [];
        existing = some g;
      },
    )
    | none ↦
        if ltb_ℤ (pos now) rec.pending_until
        then ok (b, record { state = in_flight; lease = []; existing = none })
        else reserve id entropy now b
  ]

  unfoldable pub claim : Str → Option Str → Time → Bucket → Result Error (Bucket × Begun)
  claim id entropy now b = elim (get id b) [
    | none ↦ reserve id entropy now b
    | some raw ↦ do rec ← decode_grant_record raw; known id entropy now b rec
  ]

  -- Begin
  unfoldable pub begin : Disk → Str → Option Str → Time → Bucket → Bucket × Result Error Begun
  begin disk id entropy now b =
      if is_empty id then (b, err empty_id) else update disk b (claim id entropy now)

  unfoldable pub drop_lease : Str → Str → Bucket → Result Error (Bucket × Unit {0})
  drop_lease id lease b = elim (get id b) [
    | none ↦ ok (b, tt)
    | some raw ↦ do
      rec ← decode_grant_record raw
      elim rec.grant [
        | some g ↦ ok (b, tt)
        | none ↦ if str_eq rec.lease lease then ok (delete id b, tt) else ok (b, tt)
      ]
  ]

  -- Release
  unfoldable pub release : Disk → Str → Str → Bucket → Bucket × Result Error (Unit {0})
  release disk id lease b =
      if is_empty lease then (b, ok tt) else update disk b (drop_lease id lease)

  unfoldable pub replace : Str → Str → Grant → Bucket → Result Error (Bucket × (Grant × Bool))
  replace id lease grant b = do
    raw ← or_fail (get id b) disappeared
    rec ← decode_grant_record raw
    elim rec.grant [
      | some g ↦ ok (b, (g, false))
      | none ↦ do
        guard (not (is_empty lease || not (str_eq rec.lease lease))) changed
        enc ←
            or_fail (json.encode (record { lease = []; pending_until = pos 0; grant = some grant }))
              not_encoded
        ok (put id enc b, (grant, true))
    ]

  -- Commit: the grant that the store holds, and whether this call stored it.
  unfoldable pub commit : Disk → Str → Str → Grant → Bucket → Bucket × Result Error (Grant × Bool)
  commit disk id lease grant b =
      if validate_grant grant
      then update disk b (replace id lease grant)
      else (b, err incomplete_grant)
