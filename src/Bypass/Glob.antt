-- ===== src/Bypass/Glob.antt =====
-- matchGlob decides the language of a pattern with at most one star.
use mathlib.Core.List.{reverse, reverse-append, reverse-reverse, append_assoc}
use anteroom.Common.{
  ℕ, ◌+◌, ◌≤◌, ◌≡◌, refl, sym, ap, ◌∙◌, ◌≢◌, ◌↔◌, inl, inr, true, none, some, [], ◌∷◌, ◌++◌, length,
  All, arith, length-append, Option-cases,
}
use anteroom.Common.Text.{
  Str, str_eq_iff, cut, cut-append, has_prefix, has_prefix-append, has_prefix-split, has_suffix,
}
use anteroom.Bypass.{match_glob}

-- The texts that a pattern stands for.
pub data Matches (pat s : Str) : Type 0 where
  exact : All (λ b. b ≢ b'*') pat → pat ≡ s → Matches pat s
  star :
      (pre post mid : Str)
      → All (λ b. b ≢ b'*') pre
      → pat ≡ pre ++ b'*' ∷ post
      → s ≡ pre ++ (mid ++ post)
      → Matches pat s

cut-eq-some :
    (c : ℕ) (s before after : Str)
    → cut c s ≡ some (before, after)
    → All (λ b. b ≢ c) before × (s ≡ before ++ c ∷ after)
unfolding cut
cut-eq-some c [] before after h = cc
cut-eq-some c (d ∷ s) [] after h = ground arith
cut-eq-some c (d ∷ s) (x ∷ before) after h = ground (arith, cut-eq-some c s before after)

cut-eq-none : (c : ℕ) (s : Str) → cut c s ≡ none → All (λ b. b ≢ c) s
unfolding cut
cut-eq-none c [] h = tt
cut-eq-none c (d ∷ s) h = (ground arith, cut-eq-none c s (ground arith))

cut-none : (c : ℕ) (s : Str) → All (λ b. b ≢ c) s → cut c s ≡ none
unfolding cut
cut-none c [] h = refl
cut-none c (d ∷ s) h = ground (arith, cut-none c s h.1)

has_suffix-append : (r p : Str) → has_suffix (r ++ p) p ≡ true
unfolding has_suffix
has_suffix-append r p = rw (reverse-append r p) (has_prefix-append (reverse p) (reverse r))

has_suffix-split : (s p : Str) → has_suffix s p ≡ true → (r : Str) × (s ≡ r ++ p)
has_suffix-split s p h =
    let (r, e) = has_prefix-split (reverse s) (reverse p) (unfold has_suffix in h) in
    (
      reverse r,
      sym (reverse-reverse s)
          ∙ ap reverse e
          ∙ reverse-append (reverse p) r
          ∙ ap (λ t. reverse r ++ t) (reverse-reverse p),
    )

-- A text that begins with `pre` and ends with `post`, with room for both.
between :
    (pre r l post : Str)
    → pre ++ r ≡ l ++ post
    → length post ≤ length r
    → (mid : Str) × (r ≡ mid ++ post)
between [] r l post e h = (l, e)
between (c ∷ pre) r [] post e h = absurd (omega (arith, ap length e, length-append pre r))
between (c ∷ pre) r (d ∷ l) post e h = between pre r l post (cc) h

glob_star :
    (pat s pre post : Str)
    → cut b'*' pat ≡ some (pre, post)
    → match_glob pat s ≡ true
    → (length pre + length post ≤ length s) × (has_prefix s pre ≡ true) × (has_suffix s post ≡ true)
unfolding match_glob
glob_star pat s pre post e h = ground arith

between-mid :
    (s pre post : Str)
    → length pre + length post ≤ length s
    → has_prefix s pre ≡ true
    → has_suffix s post ≡ true
    → (mid : Str) × (s ≡ pre ++ (mid ++ post))
between-mid s pre post room front back =
    let (r, e) = has_prefix-split s pre front in
    let (l, f) = has_suffix-split s post back in
    let (mid, g) =
      between pre r l post (sym e ∙ f) (omega (arith, ap length e, length-append pre r)) in
    (mid, e ∙ ap (λ (t : Str). pre ++ t) g)

match_glob_sound : (pat s : Str) → match_glob pat s ≡ true → Matches pat s
match_glob_sound pat s h = elim (Option-cases (cut b'*' pat)) [
  | inl e ↦ exact (cut-eq-none b'*' pat e) (unfold match_glob in ground (arith, str_eq_iff pat s))
  | inr ((pre, post), e) ↦
      let (fits, front, back) = glob_star pat s pre post e h in
      let (mid, f) = between-mid s pre post fits front back in
      let (plain, g) = cut-eq-some b'*' pat pre post e in star pre post mid plain g f
]

match_glob_complete : (pat s : Str) → Matches pat s → match_glob pat s ≡ true
unfolding match_glob
match_glob_complete pat s (exact plain e) =
    rw (cut-none b'*' pat plain, match_glob) ((str_eq_iff pat s).1 e)
match_glob_complete pat s (star pre post mid plain e f) =
    rw (e, cut-append b'*' pre post plain, match_glob, f)
      (ground (
        arith,
        has_prefix-append pre (mid ++ post),
        rw (append_assoc pre mid post) at (has_suffix-append (pre ++ mid) post),
        length-append pre (mid ++ post),
        length-append mid post,
      ))

-- A pattern matches exactly the texts that it stands for: without a star the pattern itself, and with
-- a star every text that puts any text between what stands before the first star and what stands
-- after it.
pub match_glob_iff : (pat s : Str) → (match_glob pat s ≡ true) ↔ Matches pat s
match_glob_iff pat s = (match_glob_sound pat s, match_glob_complete pat s)
