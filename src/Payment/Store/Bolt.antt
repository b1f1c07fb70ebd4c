-- ===== src/Payment/Store/Bolt.antt =====
-- A bbolt bucket: keys with raw values. Get, Put and Delete.
use anteroom.Common.{◌≡◌, Option, none, some, List, [], ◌∷◌, arith, if◌then◌else◌}
use anteroom.Common.Text.{Str, str_eq, str_eq_iff}

abbrev pub Bucket : Type 0
Bucket = List (Str × Str)

unfoldable pub get : Str → Bucket → Option Str
get k [] = none
get k ((j, v) ∷ b) = if str_eq j k then some v else get k b

unfoldable pub delete : Str → Bucket → Bucket
delete k [] = []
delete k ((j, v) ∷ b) = let rest = delete k b in if str_eq j k then rest else (j, v) ∷ rest

unfoldable pub put : Str → Str → Bucket → Bucket
unfolding delete
put k v b = (k, v) ∷ delete k b

pub get-delete :
    (k j : Str) (b : Bucket) → get j (delete k b) ≡ (if str_eq k j then none else get j b)
unfolding get delete
get-delete k j [] = ground arith
get-delete k j ((i, v) ∷ b) =
    ground (arith, get-delete k j b, str_eq_iff i k, str_eq_iff i j, str_eq_iff k j)

pub get-put :
    (k j v : Str) (b : Bucket) → get j (put k v b) ≡ (if str_eq k j then some v else get j b)
unfolding get put
get-put k j v b = ground (arith, get-delete k j b)
