-- ===== src/Gate/Injection/Placing.antt =====
-- The search for the opening head tag in an ASCII document: it ends, and its slices are in range.
use anteroom.Common.{
  ℕ, ◌==◌, ==_iff, refl, ap, ◌∙◌, ◌++◌, append_assoc, length-append, All, zero, suc, sym, subst,
  ◌+◌, ◌-◌, ◌≤◌, ◌<◌, ◌≡◌, ◌≢◌, inl, inr, true, false, none, some, [], ◌∷◌, length, take, drop,
  arith, Bool-cases, Option-cases,
}
use anteroom.Common.Text.{Str, text, has_prefix}
use anteroom.Gate.Injection.Document.{
  Lower, Point, at, nowhere, panics, spins, index, last_index, goes_on, in_comment, find_point,
  insertion_point,
}

length-prefix-le : (s p : Str) → has_prefix s p ≡ true → length p ≤ length s
unfolding has_prefix
length-prefix-le s [] h = omega arith
length-prefix-le [] (d ∷ p) h = absurd (ground arith)
length-prefix-le (c ∷ s) (d ∷ p) h = ground (arith, length-prefix-le s p (ground arith))

pub index_bound : (pat s : Str) (k : ℕ) → index pat s ≡ some k → k + length pat ≤ length s
unfolding index
index_bound [] [] k h = ground arith
index_bound (d ∷ pat) [] k h = absurd (ground arith)
index_bound pat (c ∷ s) k h = elim (Bool-cases (has_prefix (c ∷ s) pat)) [
  | inl here ↦ ground (arith, here, length-prefix-le (c ∷ s) pat here)
  | inr later ↦ elim (Option-cases (index pat s)) [
    | inl e ↦ absurd (ground (arith, later, e))
    | inr (j, e) ↦ ground (arith, later, e, index_bound pat s j e)
  ]
]

last_index_bound : (pat s : Str) (k : ℕ) → last_index pat s ≡ some k → k ≤ length s
unfolding last_index
last_index_bound pat [] k h = ground arith
last_index_bound pat (c ∷ s) k h = elim (Option-cases (last_index pat s)) [
  | inr (j, e) ↦ ground (arith, e, last_index_bound pat s j e)
  | inl e ↦ ground (arith, e)
]

length-drop : (n : ℕ) (s : Str) → length (drop n s) ≡ length s - n
length-drop zero s = omega arith
length-drop (suc n) [] = omega arith
length-drop (suc n) (c ∷ s) = omega (arith, length-drop n s)

length-take-le : (n : ℕ) (s : Str) → length (take n s) ≤ n
length-take-le zero s = omega arith
length-take-le (suc n) [] = omega arith
length-take-le (suc n) (c ∷ s) = omega (arith, length-take-le n s)

abbrev pub IsAscii : Str → Type 0
IsAscii b = All (λ c. c < 128) b

drop-IsAscii : (n : ℕ) (b : Str) → IsAscii b → IsAscii (drop n b)
drop-IsAscii zero b a = a
drop-IsAscii (suc n) [] a = tt
drop-IsAscii (suc n) (c ∷ b) a = drop-IsAscii n b a.1

take-IsAscii : (n : ℕ) (b : Str) → IsAscii b → IsAscii (take n b)
take-IsAscii zero b a = tt
take-IsAscii (suc n) [] a = tt
take-IsAscii (suc n) (c ∷ b) a = (a.0, take-IsAscii n b a.1)

-- A place in the text just behind a closing bracket, or none.
abbrev pub IsPlaced : Str → Point → Type 0
IsPlaced b (at p) = (x : Str) × (y : Str) × (b ≡ (x ++ b'>' ∷ []) ++ y) × (p ≡ length x + 1)
IsPlaced b nowhere = Unit
IsPlaced b panics = ⊥
IsPlaced b spins = ⊥

end_bound : (b : Str) (h y : ℕ) → index (text "-->") (drop h b) ≡ some y → y + 3 ≤ length b - h
unfolding text
end_bound b h y x = omega (arith, index_bound (text "-->") (drop h b) y x, length-drop h b)

index-splits :
    (s : Str) (k : ℕ)
    → index (text ">") s ≡ some k
    → (x : Str) × (y : Str) × (s ≡ (x ++ b'>' ∷ []) ++ y) × (k ≡ length x)
unfolding index text has_prefix
index-splits [] k h = absurd (ground arith)
index-splits (c ∷ s) k h = elim (Bool-cases (c == b'>')) [
  | inl e ↦
      let same : c ≡ b'>' = (==_iff c b'>').0 e in ([], s, ap (λ x. x ∷ s) same, ground (arith, e))
  | inr e ↦ elim (Option-cases (index (text ">") s)) [
    | inl f ↦ absurd (ground (arith, e, f))
    | inr (j, f) ↦
        let (x, y, split, at_) = index-splits s j f in
        (c ∷ x, y, ap (λ t. c ∷ t) split, ground (arith, e, f, at_))
  ]
]

drop-split : (n : ℕ) (b : Str) → n ≤ length b → (x : Str) × (b ≡ x ++ drop n b) × (length x ≡ n)
drop-split zero b l = ([], refl, refl)
drop-split (suc n) [] l = absurd (omega arith)
drop-split (suc n) (c ∷ b) l =
    let (x, e, m) = drop-split n b (omega arith) in (c ∷ x, ap (λ t. c ∷ t) e, omega arith)

closed :
    (b : Str) (h e : ℕ)
    → h ≤ length b
    → index (text ">") (drop h b) ≡ some e
    → IsPlaced b (at (h + (e + 1)))
closed b h e l f =
    let (x, y, split, k) = index-splits (drop h b) e f in
    let (w, whole, m) = drop-split h b l in
    (
      w ++ x,
      y,
      whole
          ∙ ap (λ t. w ++ t) (split ∙ append_assoc x (b'>' ∷ []) y)
          ∙ sym (append_assoc w x (b'>' ∷ y))
          ∙ sym (append_assoc (w ++ x) (b'>' ∷ []) y),
      omega (arith, m, k, length-append w x),
    )

-- bytes.ToLower keeps the length of an ASCII text.
module _ (lower : Lower) (keeps : (s : Str) → IsAscii s → length (lower s) ≡ length s) where
  found_bound :
      (b : Str) (i k : ℕ)
      → IsAscii b
      → i ≤ length b
      → index (text "<head") (lower (drop i b)) ≡ some k
      → k + i + 5 ≤ length b
  unfolding text
  found_bound b i k ascii l h =
      let e = index_bound (text "<head") (lower (drop i b)) k h in
      omega (arith, e, keeps (drop i b) (drop-IsAscii i b ascii), length-drop i b, l)

  in_comment_known : (b : Str) (h : ℕ) → IsAscii b → in_comment lower b h ≢ none
  unfolding in_comment
  in_comment_known b h ascii z = elim (Option-cases (last_index (text "<!--") (lower (take h b)))) [
    | inl e ↦ ground (arith, e)
    | inr (c, e) ↦
        let l = last_index_bound (text "<!--") (lower (take h b)) c e in
        let m = keeps (take h b) (take-IsAscii h b ascii) in
        let n = length-take-le h b in
        let in_range : c ≤ h = omega (arith, l, m, n) in
        elim (Option-cases (index (text "-->") (drop c (take h b)))) [
          | inl f ↦ ground (arith, e, in_range, f)
          | inr (x, f) ↦ ground (arith, e, in_range, f)
        ]
  ]

  find_point-IsPlaced :
      (b : Str) (fuel i : ℕ)
      → IsAscii b
      → i ≤ length b
      → length b < fuel + i
      → IsPlaced b (find_point lower b fuel i)
  unfolding find_point
  find_point-IsPlaced b zero i ascii l f = absurd (ground (arith, l, f))
  find_point-IsPlaced b (suc fuel) i ascii l f =
      elim (Option-cases (index (text "<head") (lower (drop i b)))) [
        | inl e ↦
            let step : find_point lower b (suc fuel) i ≡ nowhere = ground (arith, e) in
            subst (IsPlaced b) (sym step) tt
        | inr (k, e) ↦
            let h = k + i in
            let inside = found_bound b i k ascii l e in
            elim (Bool-cases (goes_on (drop (h + 5) b))) [
              | inl more ↦
                  let step : find_point lower b (suc fuel) i ≡ find_point lower b fuel (h + 5) =
                    ground (arith, e, more, inside) in
                  subst (IsPlaced b) (sym step) (
                    find_point-IsPlaced b fuel (h + 5) ascii (omega (arith, inside))
                      (omega (arith, f)))
              | inr tag ↦ elim (Option-cases (in_comment lower b h)) [
                | inl c ↦ absurd (in_comment_known b h ascii c)
                | inr (true, c) ↦ elim (Option-cases (index (text "-->") (drop h b))) [
                  | inl x ↦
                      let step : find_point lower b (suc fuel) i ≡ nowhere =
                        ground (arith, e, tag, inside, c, x) in
                      subst (IsPlaced b) (sym step) tt
                  | inr (y, x) ↦
                      let past = end_bound b h y x in
                      let step : find_point lower b (suc fuel) i
                          ≡ find_point lower b fuel (h + (y + 3)) =
                        ground (arith, e, tag, inside, c, x) in
                      subst (IsPlaced b) (sym step) (
                        find_point-IsPlaced b fuel (h + (y + 3)) ascii (omega (arith, past, inside))
                          (omega (arith, f)))
                ]
                | inr (false, c) ↦ elim (Option-cases (index (text ">") (drop h b))) [
                  | inl x ↦
                      let step : find_point lower b (suc fuel) i ≡ nowhere =
                        ground (arith, e, tag, inside, c, x) in
                      subst (IsPlaced b) (sym step) tt
                  | inr (y, x) ↦
                      let step : find_point lower b (suc fuel) i ≡ at (h + (y + 1)) =
                        ground (arith, e, tag, inside, c, x) in
                      subst (IsPlaced b) (sym step) (closed b h y (omega (arith, inside)) x)
                ]
              ]
            ]
      ]

  -- In an ASCII document, insertionPoint ends, none of its slices is out of range, and the place that it
  -- gives is just behind a closing bracket of the document; bytes.ToLower keeps the length of ASCII.
  pub insertion_point-IsPlaced : (b : Str) → IsAscii b → IsPlaced b (insertion_point lower b)
  unfolding insertion_point
  insertion_point-IsPlaced b ascii =
      find_point-IsPlaced b (suc (length b)) 0 ascii (omega arith) (omega arith)
