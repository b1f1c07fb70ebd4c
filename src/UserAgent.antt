-- ===== src/UserAgent.antt =====
-- internal/useragent/product.go: product tokens of a User-Agent.
pub mod Tokens
use anteroom.Common.{
  ℕ, ◌==◌, zero, suc, ◌-◌, Bool, true, false, ◌&&◌, ◌||◌, Option, none, some, List, [], ◌∷◌, length,
  if◌then◌else◌,
}
use anteroom.Common.Text.{Str, has_prefix}

-- The bytes of " (\t;".
unfoldable pub is_separator : ℕ → Bool
is_separator c = c == b' ' || (c == b'(' || (c == 9 || c == b';'))

-- The start of the field, or behind a separator; the argument is the byte before.
unfoldable pub starts : Option ℕ → Bool
starts none = true
starts (some c) = is_separator c

-- The loop, with the byte before the place that it looks at and the bytes of a token to pass over.
unfoldable pub scan : Str → Option ℕ → ℕ → Str → Bool
scan product before zero [] = has_prefix [] product && starts before
scan product before (suc skip) [] = false
scan product before zero (c ∷ s) =
    let next = scan product (some c) 0 s in
    let past = scan product (some c) (length product - 1) s in
    if has_prefix (c ∷ s) product then (if starts before then true else past) else next
scan product before (suc skip) (c ∷ s) = scan product (some c) skip s

-- ContainsProduct
unfoldable pub contains_product : Str → Str → Bool
contains_product value product = scan product none 0 value
