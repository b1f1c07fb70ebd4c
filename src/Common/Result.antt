-- ===== src/Common/Result.antt =====
-- A Go function that returns a value or an error.
use mathlib.Core.Path.{◌≡◌, refl, sym}
use mathlib.Core.Logic.{◌≢◌, ◌⊎◌, inl, inr}
use mathlib.Core.Bool.{Bool, true, false}
use mathlib.Core.Option.{Option, none, some}

pub data Result {ℓ} (E : Type 0) (A : Type ℓ) : Type ℓ where
  ok : A → Result E A
  err : E → Result E A

infixl 5 ◌>>=◌ ◌>>◌
abbrev pub ◌>>=◌ {ℓ κ} :
    {E : Type 0} {A : Type ℓ} {B : Type κ} → Result E A → (A → Result E B) → Result E B
ok a >>= f = f a
err e >>= f = err e

abbrev pub ◌>>◌ {ℓ} : {E : Type 0} {B : Type ℓ} → Result E (Unit {0}) → Result E B → Result E B
m >> k = m >>= λ _. k

-- `if !b { return e }`
abbrev pub guard : {E : Type 0} → Bool → E → Result E (Unit {0})
guard true e = ok tt
guard false e = err e

-- `v, ok := …; if !ok { return e }`
abbrev pub or_fail {ℓ} : {E : Type 0} {A : Type ℓ} → Option A → E → Result E A
or_fail none e = err e
or_fail (some a) e = ok a

-- `if err := …; err != nil { return e }`
abbrev pub unless_err : {E F : Type 0} → Option F → E → Result E (Unit {0})
unless_err none e = ok tt
unless_err (some f) e = err e

-- Inversion of a step: a result that is not the step's own error comes from what follows it.
pub or_fail-past {ℓ κ} :
    {E : Type 0} {A : Type ℓ} {B : Type κ} (o : Option A) (e : E) (f : A → Result E B)
    {r : Result E B}
    → (or_fail o e >>= f) ≡ r
    → r ≢ err e
    → (a : A) × (o ≡ some a) × (f a ≡ r)
or_fail-past none e f h n = absurd (n (sym h))
or_fail-past (some a) e f h n = (a, refl, h)

pub guard-past {κ} :
    {E : Type 0} {B : Type κ} (c : Bool) (e : E) (k : Result E B) {r : Result E B}
    → (guard c e >> k) ≡ r
    → r ≢ err e
    → (c ≡ true) × (k ≡ r)
guard-past true e k h n = (refl, h)
guard-past false e k h n = absurd (n (sym h))

pub unless_err-past {κ} :
    {E F : Type 0} {B : Type κ} (o : Option F) (e : E) (k : Result E B) {r : Result E B}
    → (unless_err o e >> k) ≡ r
    → r ≢ err e
    → (o ≡ none) × (k ≡ r)
unless_err-past none e k h n = (refl, h)
unless_err-past (some f) e k h n = absurd (n (sym h))

pub ok-ne-err {ℓ} : {E : Type 0} {A : Type ℓ} (a : A) (e : E) → ok a ≢ err e
ok-ne-err a e h = cc

-- The same of a step that succeeds.
module _ {ℓ κ} {E : Type 0} {A : Type ℓ} {B : Type κ} where
  pub bind-ok :
      (m : Result E A) (f : A → Result E B) {b : B}
      → (m >>= f) ≡ ok b
      → (a : A) × (m ≡ ok a) × (f a ≡ ok b)
  bind-ok (ok a) f h = (a, refl, h)
  bind-ok (err e) f h = cc

  pub or_fail-ok :
      (o : Option A) (e : E) (f : A → Result E B) {b : B}
      → (or_fail o e >>= f) ≡ ok b
      → (a : A) × (o ≡ some a) × (f a ≡ ok b)
  or_fail-ok o e f h = or_fail-past o e f h (ok-ne-err _ e)

pub guard-ok {κ} :
    {E : Type 0} {B : Type κ} (c : Bool) (e : E) (k : Result E B) {b : B}
    → (guard c e >> k) ≡ ok b
    → (c ≡ true) × (k ≡ ok b)
guard-ok c e k h = guard-past c e k h (ok-ne-err _ e)

pub Result-cases {ℓ} :
    {E : Type 0} {A : Type ℓ} (r : Result E A) → ((a : A) × (r ≡ ok a)) ⊎ ((e : E) × (r ≡ err e))
Result-cases (ok a) = inl (a, refl)
Result-cases (err e) = inr (e, refl)
