-- ===== src/Http.antt =====
-- What the program uses of net/http: requests, and header maps. A header map is the list of its
-- lines; names are compared without case, as the canonical form of the package does.
use anteroom.Common.{
  Bool, true, false, List, [], ◌∷◌, ◌++◌, ◌≡◌, refl, ◌∙◌, inl, inr, arith, if◌then◌else◌,
  Bool-cases, append-nil,
}
use anteroom.Common.Text.{Str, equal_fold, to_lower, str_eq-eq, str_eq_refl}

abbrev pub Headers : Type 0
Headers = List (Str × Str)

-- Header.Values
unfoldable pub values : Str → Headers → List Str
values name [] = []
values name ((n, v) ∷ h) = let rest = values name h in if equal_fold n name then v ∷ rest else rest

-- Header.Get: the first value, or the empty string.
unfoldable pub get : Str → Headers → Str
get name [] = []
get name ((n, v) ∷ h) = let rest = get name h in if equal_fold n name then v else rest

-- Header.Del
unfoldable pub del : Str → Headers → Headers
del name [] = []
del name ((n, v) ∷ h) = let rest = del name h in if equal_fold n name then rest else (n, v) ∷ rest

-- Header.Add
unfoldable pub add : Str → Str → Headers → Headers
add name v h = h ++ (name, v) ∷ []

-- Header.Set
unfoldable pub set : Str → Str → Headers → Headers
unfolding del add
set name v h = add name v (del name h)

pub record Request : Type 0 where
  pub method : Str
  pub host : Str
  pub path : Str
  pub raw_query : Str
  pub headers : Headers
  pub remote_addr : Str
  pub tls : Bool

abbrev pub header : Request → Str → Str
header r name = get name r.headers

-- Deleting a name leaves no line of it.
pub values-del : (name : Str) (h : Headers) → values name (del name h) ≡ []
unfolding values del
values-del name [] = refl
values-del name ((n, v) ∷ h) = ground (arith, values-del name h)

-- Names that are equal without case.
pub equal_fold_join : (m n k : Str) → equal_fold m n ≡ true → equal_fold m k ≡ equal_fold n k
unfolding equal_fold
equal_fold_join m n k h = rw (str_eq-eq (to_lower m) (to_lower n) h) refl

pub values-del_other :
    (name other : Str) (h : Headers)
    → equal_fold name other ≡ false
    → values other (del name h) ≡ values other h
unfolding values del
values-del_other name other [] f = refl
values-del_other name other ((n, v) ∷ h) f = elim (Bool-cases (equal_fold n name)) [
  | inl e ↦ ground (arith, e, equal_fold_join n name other e, values-del_other name other h f)
  | inr e ↦ ground (arith, e, values-del_other name other h f)
]

pub values-add :
    (name other v : Str) (h : Headers)
    → values other (add name v h) ≡ values other h ++ (if equal_fold name other then v ∷ [] else [])
unfolding values add
values-add name other v [] = ground arith
values-add name other v ((n, w) ∷ h) = ground (arith, values-add name other v h)

pub equal_fold_refl : (s : Str) → equal_fold s s ≡ true
unfolding equal_fold
equal_fold_refl s = str_eq_refl (to_lower s)

-- Setting a name leaves one line of it, and the lines of the others.
pub values-set : (name v : Str) (h : Headers) → values name (set name v h) ≡ v ∷ []
unfolding set
values-set name v h =
    values-add name name v (del name h) ∙ ground (arith, values-del name h, equal_fold_refl name)

pub values-set_other :
    (name other v : Str) (h : Headers)
    → equal_fold name other ≡ false
    → values other (set name v h) ≡ values other h
unfolding set
values-set_other name other v h f =
    values-add name other v (del name h)
    ∙ ground (arith, f, values-del_other name other h f, append-nil (values other h))
