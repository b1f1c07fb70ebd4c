-- ===== src/UserAgent/Tokens.antt =====
-- What ContainsProduct finds.
use anteroom.Common.{
  ℕ, zero, suc, ◌-◌, ◌≤◌, ◌≡◌, refl, sym, ◌∙◌, ap, ◌≢◌, ◌↔◌, inl, inr, true, false, Option, none,
  some, [], ◌∷◌, ◌++◌, length, arith, All, Bool-cases, leb,
}
use anteroom.Common.Text.{Str, has_prefix, has_prefix-append, has_prefix-split}
use anteroom.UserAgent.{is_separator, starts, scan, contains_product}

-- The byte before the place behind `pre`.
abbrev pub byte_before : Option ℕ → Str → Option ℕ
byte_before before [] = before
byte_before before (c ∷ pre) = byte_before (some c) pre

-- The product occurs at the start of a field or behind a separator.
pub record Occurs (product : Str) (before : Option ℕ) (s : Str) : Type 0 where
  pub pre : Str
  pub post : Str
  pub split : s ≡ pre ++ (product ++ post)
  pub boundary : starts (byte_before before pre) ≡ true

later-Occurs :
    (product : Str) (before : Option ℕ) (c : ℕ) (s : Str)
    → Occurs product (some c) s
    → Occurs product before (c ∷ s)
later-Occurs product before c s o = record {
  pre = c ∷ o.pre;
  post = o.post;
  split = ap (λ t. c ∷ t) o.split;
  boundary = o.boundary;
}

scan_sound :
    (product : Str) (before : Option ℕ) (skip : ℕ) (s : Str)
    → scan product before skip s ≡ true
    → Occurs product before s
unfolding scan
scan_sound product before zero [] h =
    let (t, e) = has_prefix-split [] product (ground arith) in
    record { pre = []; post = t; split = e; boundary = ground arith }
scan_sound product before (suc skip) [] h = absurd (ground arith)
scan_sound product before zero (c ∷ s) h = elim (Bool-cases (has_prefix (c ∷ s) product)) [
  | inr other ↦
      later-Occurs product before c s (scan_sound product (some c) 0 s (ground (arith, other)))
  | inl here ↦ elim (Bool-cases (starts before)) [
    | inl start ↦
        let (t, e) = has_prefix-split (c ∷ s) product here in
        record { pre = []; post = t; split = e; boundary = start }
    | inr inside ↦
        later-Occurs product before c s
          (scan_sound product (some c) (length product - 1) s (ground (arith, here, inside)))
  ]
]
scan_sound product before (suc skip) (c ∷ s) h =
    later-Occurs product before c s (scan_sound product (some c) skip s h)

-- A product without separators.
abbrev pub IsToken : Str → Type 0
IsToken product = (product ≢ []) × All (λ c. is_separator c ≡ false) product

-- No place inside an occurrence of a token is behind a separator.
inside_token :
    (p t pre r : Str) (before : Option ℕ)
    → All (λ c. is_separator c ≡ false) p
    → p ++ t ≡ pre ++ r
    → length pre ≤ length p
    → starts before ≡ false
    → starts (byte_before before pre) ≡ false
unfolding starts
inside_token p t [] r before n e l h = h
inside_token [] t (c ∷ pre) r before n e l h = absurd (ground arith)
inside_token (d ∷ p) t (c ∷ pre) r before n e l h =
    let same : d ≡ c = ground arith in
    inside_token p t pre r (some c) n.1 (ground arith) (ground arith) (ground (arith, n.0, same))

empty_front : (p t : Str) → p ++ t ≡ [] → p ≡ []
empty_front [] t e = refl
empty_front (c ∷ p) t e = absurd (ground arith)

module _ (product : Str) (k : IsToken product) where
  -- The place of another occurrence is behind the whole of this one.
  far :
      (before : Option ℕ) (c : ℕ) (s : Str) (d : ℕ) (pre post t : Str)
      → c ∷ s ≡ d ∷ pre ++ (product ++ post)
      → c ∷ s ≡ product ++ t
      → starts (byte_before before (d ∷ pre)) ≡ true
      → starts before ≡ false
      → length product - 1 ≤ length pre
  far before c s d pre post t e f b inside =
      elim (Bool-cases (leb (length (d ∷ pre)) (length product))) [
        | inr longer ↦ ground (arith, longer)
        | inl short ↦
            let out =
              inside_token product t (d ∷ pre) (product ++ post) before k.1 (sym f ∙ e)
                (ground (arith, short)) inside in
            absurd (ground (arith, out, b))
      ]

  scan_complete :
      (before : Option ℕ) (skip : ℕ) (s pre post : Str)
      → s ≡ pre ++ (product ++ post)
      → starts (byte_before before pre) ≡ true
      → skip ≤ length pre
      → scan product before skip s ≡ true
  unfolding scan
  scan_complete before skip [] [] post e b l = absurd (k.0 (empty_front product post (sym e)))
  scan_complete before skip [] (d ∷ pre) post e b l = absurd (ground arith)
  scan_complete before zero (c ∷ s) [] post e b l =
      let here : has_prefix (c ∷ s) product ≡ true =
        ap (λ t. has_prefix t product) e ∙ has_prefix-append product post in
      ground (arith, here, b)
  scan_complete before (suc skip) (c ∷ s) [] post e b l = absurd (ground arith)
  scan_complete before (suc skip) (c ∷ s) (d ∷ pre) post e b l =
      let same : d ≡ c = ground arith in
      scan_complete (some c) skip s pre post (ground arith)
        (ap (λ x. starts (byte_before (some x) pre)) (sym same) ∙ b) (ground arith)
  scan_complete before zero (c ∷ s) (d ∷ pre) post e b l =
      let same : d ≡ c = ground arith in
      let b' : starts (byte_before (some c) pre) ≡ true =
        ap (λ x. starts (byte_before (some x) pre)) (sym same) ∙ b in
      let rest : s ≡ pre ++ (product ++ post) = ground arith in
      elim (Bool-cases (has_prefix (c ∷ s) product)) [
        | inr other ↦
            let r = scan_complete (some c) 0 s pre post rest b' (omega arith) in
            ground (arith, other, r)
        | inl here ↦ elim (Bool-cases (starts before)) [
          | inl start ↦ ground (arith, here, start)
          | inr inside ↦
              let (t, f) = has_prefix-split (c ∷ s) product here in
              let r =
                scan_complete (some c) (length product - 1) s pre post rest b'
                  (far before c s d pre post t e f b inside) in
              ground (arith, here, inside, r)
        ]
      ]

-- For a token without separators, ContainsProduct finds it exactly when it stands at the start of the
-- User-Agent or behind a space, a parenthesis, a tab or a semicolon, overlaps included.
pub contains_product_iff :
    (value product : Str)
    → IsToken product
    → (contains_product value product ≡ true) ↔ Occurs product none value
unfolding contains_product
contains_product_iff value product k = (
  scan_sound product none 0 value,
  λ o. scan_complete product k none 0 value o.pre o.post o.split o.boundary (omega arith),
)
