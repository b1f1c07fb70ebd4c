-- ===== src/Payment/Store/Codec.antt =====
-- An encoding of grant records for the tests: each text behind its length, each integer behind its
-- sign. It stands in for encoding/json.
use anteroom.Common.{
  ◌∙◌, zero, suc, ◌≡◌, refl, Option, none, some, [], ◌∷◌, ◌++◌, length, take, drop, take-append,
  drop-append, ℤ, pos, negsuc,
}
use anteroom.Common.Text.{Str}
use anteroom.Payment.Store.{Grant, GrantRecord, Json}
use anteroom.Payment.Store.Records.{Encodes}

abbrev put_str : Str → Str → Str
put_str s rest = length s ∷ (s ++ rest)

abbrev put_int : ℤ → Str → Str
put_int (pos n) rest = 0 ∷ n ∷ rest
put_int (negsuc n) rest = 1 ∷ n ∷ rest

abbrev read_str : {A : Type 0} → Str → (Str → Str → Option A) → Option A
read_str [] k = none
read_str (n ∷ xs) k = k (take n xs) (drop n xs)

abbrev read_int : {A : Type 0} → Str → (ℤ → Str → Option A) → Option A
read_int [] k = none
read_int (n ∷ []) k = none
read_int (zero ∷ n ∷ xs) k = k (pos n) xs
read_int (suc m ∷ n ∷ xs) k = k (negsuc n) xs

read_int_lem :
    {A : Type 0} (n : ℤ) (rest : Str) (k : ℤ → Str → Option A)
    → read_int (put_int n rest) k ≡ k n rest
read_int_lem (pos n) rest k = refl
read_int_lem (negsuc n) rest k = refl

put_fields : Grant → Str
put_fields g = put_str g.scope (
    put_str g.audience (
      put_str g.payer
        (put_str g.transaction (put_str g.amount (put_str g.network (put_int g.expires_at []))))))

read_fields : Str → Option Grant
read_fields xs = read_str xs λ s xs. read_str xs λ a xs. read_str xs λ p xs. read_str xs λ t xs.
    read_str xs λ m xs. read_str xs λ n xs. read_int xs λ e xs. some (record {
      scope = s;
      audience = a;
      payer = p;
      transaction = t;
      amount = m;
      network = n;
      expires_at = e;
    })

read_fields_lem : (g : Grant) → read_fields (put_fields g) ≡ some g
unfolding read_fields put_fields
read_fields_lem g =
    simp (take-append, drop-append)
      (read_int_lem g.expires_at [] (λ e xs. some (record g { expires_at = e })))

put_grant : Option Grant → Str
put_grant none = 0 ∷ []
put_grant (some g) = 1 ∷ put_fields g

read_grant : Str → Option (Option Grant)
read_grant [] = none
read_grant (zero ∷ xs) = some none
read_grant (suc n ∷ xs) = elim (read_fields xs) [ none ↦ none | some g ↦ some (some g) ]

read_grant_lem : (g : Option Grant) → read_grant (put_grant g) ≡ some g
unfolding read_grant put_grant
read_grant_lem none = refl
read_grant_lem (some g) = rw (read_fields_lem g, read_grant)

write : GrantRecord → Str
write r = put_str r.lease (put_int r.pending_until (put_grant r.grant))

abbrev with_grant : Str → ℤ → Option (Option Grant) → Option GrantRecord
with_grant l u none = none
with_grant l u (some g) = some (record { lease = l; pending_until = u; grant = g })

read : Str → Option GrantRecord
read xs = read_str xs λ l xs. read_int xs λ u xs. with_grant l u (read_grant xs)

unfoldable pub lengths : Json
unfolding write read put_grant read_grant put_fields read_fields
lengths = record { encode = λ r. some (write r); decode = read }

read-write : (r : GrantRecord) → read (write r) ≡ some r
unfolding read write
read-write r =
    simp (take-append, drop-append)
      (read_int_lem r.pending_until (put_grant r.grant)
          (λ u xs. with_grant r.lease u (read_grant xs))
        ∙ rw (read_grant_lem r.grant))

pub lengths-Encodes : Encodes lengths
unfolding lengths
lengths-Encodes = record { raw = write; encode-eq = λ r. refl; decode-raw = read-write }
