-- ===== src/Config/Price.antt =====
-- internal/config/config.go, parsePrice: a display price in the atomic units of an asset.
use anteroom.Common.{
  ℕ, zero, suc, ◌-◌, ◌==◌, Bool, ◌&&◌, ◌||◌, not, none, some, [], ◌∷◌, ◌++◌, ltb, leb, length, any,
  if◌then◌else◌, ℤ, pos, pos_part, ltb_ℤ,
}
use anteroom.Common.Text.{Str, is_empty, cut, trim_space}
use anteroom.Common.Result.{Result, ok, ◌>>=◌, ◌>>◌, guard, or_fail}
use anteroom.Payment.Identity.{set_string}

pub data Error : Type 0 where
  bad_decimals empty no_digits bad_character many_digits unparseable zero_price : Error

-- strings.TrimPrefix of a single byte
unfoldable pub trim_prefix : ℕ → Str → Str
trim_prefix c [] = []
trim_prefix c (d ∷ s) = if d == c then s else d ∷ s

-- strings.Repeat of the digit 0
unfoldable pub zeros : ℕ → Str
zeros zero = []
zeros (suc n) = b'0' ∷ zeros n

unfoldable pub is_other : ℕ → Bool
is_other c = ltb c b'0' || ltb b'9' c

-- The two parts of the number.
unfoldable pub parts : Str → Str × Str
parts s = elim (cut b'.' s) [ none ↦ (s, []) | some (whole, frac) ↦ (whole, frac) ]

-- parsePrice
unfoldable pub parse_price : Str → ℤ → Result Error ℕ
parse_price price decimals = do
  guard (not (ltb_ℤ decimals (pos 0) || ltb_ℤ (pos 36) decimals)) bad_decimals
  let s = trim_space (trim_prefix b'$' (trim_space price))
  guard (not (is_empty s)) empty
  let (given, frac) = parts s
  guard (not (is_empty given && is_empty frac)) no_digits
  let whole = if is_empty given then b'0' ∷ [] else given
  guard (not (any is_other (whole ++ frac))) bad_character
  guard (leb (length frac) (pos_part decimals)) many_digits
  n ←
      or_fail (set_string 10 (whole ++ (frac ++ zeros (pos_part decimals - length frac))))
        unparseable
  guard (not (n == 0)) zero_price
  ok n
