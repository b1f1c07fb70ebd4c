-- ===== src/Gate/Injection/Document.antt =====
-- internal/gate/inject.go and injector.go: where the head of a document begins and ends.
use anteroom.Common.{
  ℕ, zero, suc, ◌+◌, ◌==◌, Bool, true, false, ◌&&◌, ◌||◌, not, Option, none, some, [], ◌∷◌, any,
  take, drop, length, ltb, leb, if◌then◌else◌,
}
use anteroom.Common.Text.{Str, text, is_empty, equal_fold, has_prefix, trim_left}

-- bytes.ToLower. It reads its argument as UTF-8 and writes UTF-8, so that the length may change: a byte
-- that is no UTF-8 becomes the three bytes of U+FFFD.
abbrev pub Lower : Type 0
Lower = Str → Str

-- bytes.Index
unfoldable pub index : Str → Str → Option ℕ
index pat [] = if is_empty pat then some 0 else none
index pat (c ∷ s) =
    let rest = index pat s in
    if has_prefix (c ∷ s) pat then some 0 else elim rest [ none ↦ none | some k ↦ some (suc k) ]

-- bytes.LastIndex
unfoldable pub last_index : Str → Str → Option ℕ
last_index pat [] = if is_empty pat then some 0 else none
last_index pat (c ∷ s) = elim (last_index pat s) [
  | some k ↦ some (suc k)
  | none ↦ if has_prefix (c ∷ s) pat then some 0 else none
]

-- isTagNameEnd
unfoldable pub is_tag_name_end : ℕ → Bool
is_tag_name_end c = c == b'>' || (c == b' ' || (c == 9 || (c == 13 || (c == 10 || c == b'/'))))

-- utf16or32BOM
unfoldable pub utf16_or_32_bom : Str → Bool
utf16_or_32_bom b =
    has_prefix b (0xFF ∷ 0xFE ∷ [])
    || (has_prefix b (0xFE ∷ 0xFF ∷ []) || has_prefix b (0 ∷ 0 ∷ []))

-- The code points of the cutset that TrimLeft takes off: U+FEFF, whose bytes are EF BB BF, and blanks.
unfoldable pub trim_bom : Str → Str
trim_bom (x ∷ y ∷ z ∷ s) =
    let rest = trim_bom s in
    let one = trim_bom (y ∷ z ∷ s) in
    if x == 0xEF && (y == 0xBB && z == 0xBF)
    then rest
    else if x == b' ' || (x == 9 || (x == 13 || x == 10))
    then one
    else x ∷ y ∷ z ∷ s
trim_bom s = trim_left (λ x. x == b' ' || (x == 9 || (x == 13 || x == 10))) s

-- The text starts with the prefix, or may still come to.
unfoldable pub may_start : Str → Str → Bool
may_start s p =
    if leb (length p) (length s)
    then equal_fold (take (length p) s) p
    else equal_fold s (take (length s) p)

-- looksLikeDocument
unfoldable pub looks_like_document : Str → Bool
looks_like_document b =
    not (utf16_or_32_bom b)
    && any (may_start (trim_bom b)) (text "<!doctype html" ∷ text "<html" ∷ text "<head" ∷ [])

-- The result of insertionPoint: -1 is `nowhere`, a slice out of range `panics`, and `spins` is the end
-- of the fuel.
pub data Point : Type 0 where
  at : ℕ → Point
  nowhere panics spins : Point

-- The byte behind the name, where there is one, does not end the name.
unfoldable pub goes_on : Str → Bool
goes_on [] = false
goes_on (c ∷ s) = not (is_tag_name_end c)

-- The tag at `h` is inside a comment; `none` is a slice out of range.
unfoldable pub in_comment : Lower → Str → ℕ → Option Bool
in_comment lower b h = elim (last_index (text "<!--") (lower (take h b))) [
  | none ↦ some false
  | some c ↦
      if ltb h c
      then none
      else elim (index (text "-->") (drop c (take h b))) [ none ↦ some true | some e ↦ some false ]
]

-- The loop of insertionPoint from `i`. Its slices are in range while `h` is at most the length.
unfoldable pub find_point : Lower → Str → ℕ → ℕ → Point
find_point lower b zero i = spins
find_point lower b (suc fuel) i = elim (index (text "<head") (lower (drop i b))) [
  | none ↦ nowhere
  | some k ↦
      let h = k + i in
      if ltb (length b) h
      then panics
      else if goes_on (drop (h + 5) b)
      then find_point lower b fuel (h + 5)
      else elim (in_comment lower b h) [
        | none ↦ panics
        | some true ↦ elim (index (text "-->") (drop h b)) [
          | none ↦ nowhere
          | some e ↦ find_point lower b fuel (h + (e + 3))
        ]
        | some false ↦ elim (index (text ">") (drop h b)) [
          | none ↦ nowhere
          | some e ↦ at (h + (e + 1))
        ]
      ]
]

-- insertionPoint
unfoldable pub insertion_point : Lower → Str → Point
insertion_point lower b = find_point lower b (suc (length b)) 0

-- headEnd
unfoldable pub head_end : Lower → Str → Option ℕ
head_end lower b = elim (index (text "</head") (lower b)) [
  | none ↦ index (text "<body") (lower b)
  | some closing ↦ elim (index (text "<body") (lower b)) [
    | none ↦ some closing
    | some body ↦ some (if ltb body closing then body else closing)
  ]
]
