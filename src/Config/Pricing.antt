-- ===== src/Config/Pricing.antt =====
-- What parsePrice reads.
use native.Mathlib.Nat.{pow-suc}
use anteroom.Common.{
  ℕ, zero, suc, ◌+◌, ◌-◌, ◌*◌, ◌^◌, ◌≤◌, ◌≡◌, refl, ◌∙◌, ap, subst, ◌≢◌, ◌↔◌, inl, inr, true, false,
  ◌&&◌, some, [], ◌∷◌, ◌++◌, length, any, any-append, if◌then◌else◌, ℤ, pos, negsuc, arith,
  Bool-cases,
}
use anteroom.Common.Text.{Str, is_empty, cut, trim_space}
use anteroom.Common.Result.{ok}
use anteroom.Payment.Identity.{digit, digits_from, magnitude, set_string}
use anteroom.Config.Price.{trim_prefix, zeros, is_other, parts, parse_price}

-- The value of a text of decimal digits, read from the left.
unfoldable pub value : ℕ → Str → ℕ
value n [] = n
value n (c ∷ s) = value (n * 10 + (c - b'0')) s

digit_value : (c : ℕ) → is_other c ≡ false → digit 10 c ≡ some (c - b'0')
unfolding digit is_other
digit_value c h = ground arith

digits_from-value :
    (n : ℕ) (s : Str) → any is_other s ≡ false → digits_from 10 n s ≡ some (value n s)
unfolding digits_from value any
digits_from-value n [] h = refl
digits_from-value n (c ∷ s) h =
    let d = digit_value c (ground arith) in
    let r = digits_from-value (n * 10 + (c - b'0')) s (ground arith) in ground (arith, d, r)

set_string-value : (s : Str) → s ≢ [] → any is_other s ≡ false → set_string 10 s ≡ some (value 0 s)
unfolding set_string magnitude any is_other
set_string-value [] n h = absurd (n refl)
set_string-value (c ∷ s) n h =
    let r = digits_from-value 0 (c ∷ s) h in
    let first : is_other c ≡ false = ground arith in ground (arith, r, first)

value-append : (n : ℕ) (s t : Str) → value n (s ++ t) ≡ value (value n s) t
unfolding value
value-append n [] t = refl
value-append n (c ∷ s) t = value-append (n * 10 + (c - b'0')) s t

scale : (n p : ℕ) → (n * 10 + 0) * p ≡ n * (p * 10)
scale n p = grind arith

shift_step : (n d p : ℕ) → (n * 10 + d) * p ≡ n * (p * 10) + (0 + d) * p
shift_step n d p = grind arith

value-zeros : (n k : ℕ) → value n (zeros k) ≡ n * 10 ^ k
unfolding value zeros
value-zeros n zero = omega arith
value-zeros n (suc k) = value-zeros (n * 10 + 0) k ∙ rw (pow-suc 10 k) (scale n (10 ^ k))

value_shift : (n : ℕ) (s : Str) → value n s ≡ n * 10 ^ length s + value 0 s
unfolding value
value_shift n [] = omega arith
value_shift n (c ∷ s) =
    let d = c - b'0' in
    let a = value_shift (n * 10 + d) s in
    let b = value_shift (0 + d) s in
    let e = shift_step n d (10 ^ length s) in rw (pow-suc 10 (length s)) (omega (arith, a, b, e))

zeros_digits : (k : ℕ) → any is_other (zeros k) ≡ false
unfolding any zeros is_other
zeros_digits zero = refl
zeros_digits (suc k) = ground (arith, zeros_digits k)

-- The text between the blanks and the dollar sign, and the number it writes, in units of
-- 10 ^ (- decimals).
abbrev pub bare : Str → Str
bare price = trim_space (trim_prefix b'$' (trim_space price))

abbrev padded : Str → Str
padded whole = if is_empty whole then b'0' ∷ [] else whole

-- `n` is the price in an asset of `d` decimals, exactly.
pub record IsPrice (price : Str) (d n : ℕ) : Type 0 where
  pub in_range : d ≤ 36
  pub whole_digits : any is_other (parts (bare price)).0 ≡ false
  pub frac_digits : any is_other (parts (bare price)).1 ≡ false
  pub fits : length (parts (bare price)).1 ≤ d
  pub exact :
      n
      ≡ value 0 (parts (bare price)).0 * 10 ^ d
        + value 0 (parts (bare price)).1 * 10 ^ (d - length (parts (bare price)).1)
  pub costs : n ≢ 0

value-padded : (whole : Str) → value 0 (padded whole) ≡ value 0 whole
unfolding value
value-padded [] = refl
value-padded (c ∷ s) = refl

padded_digits : (whole : Str) → any is_other (padded whole) ≡ any is_other whole
unfolding any is_other
padded_digits [] = refl
padded_digits (c ∷ s) = refl

padded_filled : (whole t : Str) → padded whole ++ t ≢ []
padded_filled [] t e = ground arith
padded_filled (c ∷ s) t e = ground arith

regroup : (v w x y z : ℕ) → x * y ≡ z → (v * x + w) * y ≡ v * z + w * y
regroup v w x y z e = rw⁻¹ e (grind arith)

pow_step : (x y z : ℕ) → x * y ≡ z → (x * 10) * y ≡ z * 10
pow_step x y z e = rw⁻¹ e (grind arith)

pow_join : (l k : ℕ) → 10 ^ l * 10 ^ k ≡ 10 ^ (l + k)
pow_join zero k = grind arith
pow_join (suc l) k =
    let next : suc l + k ≡ suc (l + k) = omega arith in
    rw (next, pow-suc 10 l, pow-suc 10 (l + k))
      (pow_step (10 ^ l) (10 ^ k) (10 ^ (l + k)) (pow_join l k))

split_pow : (v w l k d : ℕ) → l + k ≡ d → (v * 10 ^ l + w) * 10 ^ k ≡ v * 10 ^ d + w * 10 ^ k
split_pow v w l k d e =
    let j : 10 ^ l * 10 ^ k ≡ 10 ^ d = pow_join l k ∙ ap (λ x. 10 ^ x) e in
    regroup v w (10 ^ l) (10 ^ k) (10 ^ d) j

-- The digits that parsePrice hands to math/big, and their value.
units :
    (whole frac : Str) (d : ℕ)
    → any is_other whole ≡ false
    → any is_other frac ≡ false
    → length frac ≤ d
    → set_string 10 (padded whole ++ (frac ++ zeros (d - length frac)))
      ≡ some (value 0 whole * 10 ^ d + value 0 frac * 10 ^ (d - length frac))
units whole frac d hw hf l =
    let k = d - length frac in
    let tail = frac ++ zeros k in
    let digits : any is_other (padded whole ++ tail) ≡ false =
      any-append is_other (padded whole) tail
      ∙ ground (
        arith,
        padded_digits whole,
        any-append is_other frac (zeros k),
        zeros_digits k,
        hw,
        hf,
      ) in
    set_string-value (padded whole ++ tail) (padded_filled whole tail) digits
    ∙ ap some (
        value-append 0 (padded whole) tail
        ∙ value-append (value 0 (padded whole)) frac (zeros k)
        ∙ value-zeros (value (value 0 (padded whole)) frac) k
        ∙ ap (λ x. value x frac * 10 ^ k) (value-padded whole)
        ∙ ap (λ x. x * 10 ^ k) (value_shift (value 0 whole) frac)
        ∙ split_pow (value 0 whole) (value 0 frac) (length frac) k d (omega (arith, l)))

pub price_sound :
    (price : Str) (decimals : ℤ) (n : ℕ)
    → parse_price price decimals ≡ ok n
    → (d : ℕ) × (decimals ≡ pos d) × IsPrice price d n
unfolding parse_price
price_sound price (negsuc m) n h = absurd (ground arith)
price_sound price (pos d) n h =
    let whole = (parts (bare price)).0 in
    let frac = (parts (bare price)).1 in
    let range : d ≤ 36 = ground arith in
    let digits : any is_other (padded whole ++ frac) ≡ false = ground arith in
    let l : length frac ≤ d = ground arith in
    let both = any-append is_other (padded whole) frac in
    let hw : any is_other whole ≡ false = ground (arith, padded_digits whole, both, digits) in
    let hf : any is_other frac ≡ false = ground (arith, both, digits) in
    let u = units whole frac d hw hf l in
    (
      d,
      refl,
      record {
        in_range = range;
        whole_digits = hw;
        frac_digits = hf;
        fits = l;
        exact = ground (arith, u);
        costs = ground arith;
      },
    )

free_price :
    (whole frac : Str) (d n : ℕ)
    → is_empty whole ≡ true
    → is_empty frac ≡ true
    → n ≡ value 0 whole * 10 ^ d + value 0 frac * 10 ^ (d - length frac)
    → n ≡ 0
unfolding value
free_price [] [] d n w f e = e ∙ grind arith
free_price [] (c ∷ s) d n w f e = absurd (ground arith)
free_price (c ∷ s) frac d n w f e = absurd (ground arith)

parts_empty :
    (s : Str) → is_empty s ≡ true → (is_empty (parts s).0 ≡ true) × (is_empty (parts s).1 ≡ true)
unfolding parts cut
parts_empty [] h = (refl, refl)
parts_empty (c ∷ s) h = absurd (ground arith)

price_complete : (price : Str) (d n : ℕ) → IsPrice price d n → parse_price price (pos d) ≡ ok n
unfolding parse_price
price_complete price d n p =
    let whole = (parts (bare price)).0 in
    let frac = (parts (bare price)).1 in
    let u = units whole frac d p.whole_digits p.frac_digits p.fits in
    let plain : any is_other (padded whole ++ frac) ≡ false =
      any-append is_other (padded whole) frac
      ∙ ground (arith, padded_digits whole, p.whole_digits, p.frac_digits) in
    let written : (is_empty whole && is_empty frac) ≡ false =
      elim (Bool-cases (is_empty whole && is_empty frac)) [
        | inr b ↦ b
        | inl b ↦ absurd (p.costs (free_price whole frac d n (ground arith) (ground arith) p.exact))
      ] in
    let some_text : is_empty (bare price) ≡ false = elim (Bool-cases (is_empty (bare price))) [
      | inr b ↦ b
      | inl b ↦ let (e, f) = parts_empty (bare price) b in absurd (ground (arith, e, f, written))
    ] in
    let range = p.in_range in
    let fits = p.fits in
    let exact = p.exact in
    let costs = p.costs in ground (arith, u, plain, written, some_text, range, fits, exact, costs)

-- An asset's decimals and a price give `n` atomic units exactly when the decimals are at most 36, the
-- price is digits with at most that many of them behind the point, its value in units of the last
-- decimal is `n`, and `n` is not 0; nothing is rounded.
pub parse_price_iff :
    (price : Str) (d n : ℕ) → (parse_price price (pos d) ≡ ok n) ↔ IsPrice price d n
parse_price_iff price d n = (
  λ h.
      let (e, same, p) = price_sound price (pos d) n h in
      let eq : e ≡ d = ground arith in subst (λ x. IsPrice price x n) eq p,
  price_complete price d n,
)
