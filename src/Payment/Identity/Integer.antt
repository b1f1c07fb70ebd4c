-- ===== src/Payment/Identity/Integer.antt =====
-- canonicalInteger: one spelling for each number.
use mathlib.Core.List.{reverse, reverse-append, reverse-reverse}
use native.Mathlib.Nat.{pow-suc}
use anteroom.Common.{
  ℕ, suc, zero, ◌+◌, ◌*◌, ◌/◌, ◌%◌, ◌^◌, ◌≤◌, ◌<◌, ◌≡◌, refl, ◌≢◌, ◌↔◌, inl, inr, Option, none,
  some, [], ◌∷◌, ◌++◌, arith, ltb, All, All-append, Option-cases, Bool-cases,
}
use anteroom.Common.Text.{Str, trim_space, trim_left, is_space}
use anteroom.Payment.Identity.{
  digit, digits_from, magnitude, set_string, decimals, show, base_of, read_integer,
  canonical_integer,
}

abbrev then_digits : ℕ → Option ℕ → Str → Option ℕ
then_digits base none t = none
then_digits base (some n) t = digits_from base n t

digits_from-append :
    (base n : ℕ) (s t : Str)
    → digits_from base n (s ++ t) ≡ then_digits base (digits_from base n s) t
unfolding digits_from
digits_from-append base n [] t = refl
digits_from-append base n (c ∷ s) t = elim (Option-cases (digit base c)) [
  | inl e ↦ rw (e, digits_from)
  | inr (d, e) ↦ rw (e, digits_from) (digits_from-append base (n * base + d) s t)
]

IsDigit : ℕ → Type 0
IsDigit c = (b'0' ≤ c) × (c ≤ b'9')

decimals-IsDigit : (k n : ℕ) → All IsDigit (decimals k n)
unfolding decimals IsDigit
decimals-IsDigit zero n = tt
decimals-IsDigit (suc k) n =
    let last : IsDigit (b'0' + n % 10) = (omega arith, omega arith) in
    elim (Bool-cases (ltb n 10)) [
      | inl e ↦ rw (e, decimals) (ground arith)
      | inr e ↦
          rw (e, decimals)
            (All-append IsDigit (decimals k (n / 10)) _ (decimals-IsDigit k (n / 10)) (last, tt))
    ]

digit_of : (n : ℕ) → n < 10 → digit 10 (b'0' + n) ≡ some n
unfolding digit
digit_of n h = ground arith

digits_from-decimals : (k n : ℕ) → n < 10 ^ k → digits_from 10 0 (decimals k n) ≡ some n
unfolding decimals digits_from
digits_from-decimals zero n h = ground arith
digits_from-decimals (suc k) n h =
    let h' : n < 10 ^ k * 10 = rw (← pow-suc 10 k) h in
    elim (Bool-cases (ltb n 10)) [
      | inl e ↦ rw (e, decimals) (rw (digit_of n (ground arith), digits_from) (ground arith))
      | inr e ↦
          rw (e, decimals)
            (rw
              (
                digits_from-append 10 0 (decimals k (n / 10)) ((b'0' + n % 10) ∷ []),
                digits_from-decimals k (n / 10) (omega arith),
                digit_of (n % 10) (omega arith),
                digits_from,
              )
              (ground arith))
    ]

-- Text of digits has no white space to trim.
trim_left-digits : (s : Str) → All IsDigit s → trim_left is_space s ≡ s
unfolding trim_left is_space IsDigit
trim_left-digits [] h = refl
trim_left-digits (c ∷ s) h = ground arith

All-reverse : (s : Str) → All IsDigit s → All IsDigit (reverse s)
All-reverse [] h = tt
All-reverse (c ∷ s) h =
    rw (reverse-append (c ∷ []) s)
      (All-append IsDigit (reverse s) (c ∷ []) (All-reverse s h.1) (h.0, tt))

trim_space-digits : (s : Str) → All IsDigit s → trim_space s ≡ s
unfolding trim_space
trim_space-digits s h =
    rw (trim_left-digits s h)
      (rw (trim_left-digits (reverse s) (All-reverse s h)) (reverse-reverse s))

base_of-digits : (s : Str) → All IsDigit s → base_of s ≡ (10, s)
unfolding base_of IsDigit
base_of-digits [] h = refl
base_of-digits (c ∷ []) h = refl
base_of-digits (c ∷ x ∷ []) h = refl
base_of-digits (c ∷ x ∷ d ∷ t) h = ground arith

set_string-digits : (s : Str) → s ≢ [] → All IsDigit s → set_string 10 s ≡ digits_from 10 0 s
unfolding set_string magnitude IsDigit
set_string-digits [] n h = absurd (n refl)
set_string-digits (c ∷ s) n h = ground arith

show-IsDigit : (n : ℕ) → All IsDigit (show n)
unfolding show
show-IsDigit n = decimals-IsDigit 78 n

decimals-ne : (k n : ℕ) → decimals (suc k) n ≢ []
unfolding decimals
decimals-ne k n = elim (Bool-cases (ltb n 10)) [
  | inl e ↦ rw (e, decimals) (λ z. cc)
  | inr e ↦ rw (e, decimals) (snoc_ne _ (decimals k (n / 10)))
]
  where
    snoc_ne : (c : ℕ) (s : Str) → s ++ c ∷ [] ≢ []
    snoc_ne c [] z = cc
    snoc_ne c (x ∷ s) z = cc

digits_from-show : (n : ℕ) → n < 2 ^ 256 → digits_from 10 0 (show n) ≡ some n
unfolding show
digits_from-show n h = digits_from-decimals 78 n (omega arith)

show-ne : (n : ℕ) → show n ≢ []
unfolding show
show-ne n = decimals-ne 77 n

-- A printed number reads as itself.
pub read_integer-show : (n : ℕ) → n < 2 ^ 256 → read_integer (show n) ≡ some n
unfolding read_integer
read_integer-show n h = ground (
  arith,
  trim_space-digits (show n) (show-IsDigit n),
  base_of-digits (show n) (show-IsDigit n),
  set_string-digits (show n) (show-ne n) (show-IsDigit n),
  digits_from-show n h,
)

read_integer_bound : (s : Str) (n : ℕ) → read_integer s ≡ some n → n < 2 ^ 256
unfolding read_integer
read_integer_bound s n h = ground arith

-- A text that reads as a number has a canonical form, which is its own canonical form, and two such texts
-- have the same form exactly when they read as the same number; the numbers are below 2 ^ 256.
pub canonical_integer_lem :
    (s t : Str) (n m : ℕ)
    → read_integer s ≡ some n
    → read_integer t ≡ some m
    → (n < 2 ^ 256)
      × (canonical_integer s ≡ some (show n))
      × (canonical_integer (show n) ≡ some (show n))
      × ((canonical_integer s ≡ canonical_integer t) ↔ (n ≡ m))
unfolding canonical_integer
canonical_integer_lem s t n m hs ht =
    let bn = read_integer_bound s n hs in
    let bm = read_integer_bound t m ht in
    let rn = read_integer-show n bn in
    let rm = read_integer-show m bm in
    (
      bn,
      rw (hs, canonical_integer),
      rw (rn, canonical_integer),
      (λ e. ground arith, λ e. ground arith),
    )
