-- ===== src/Gate/Writer/Sealing.antt =====
-- The responses that a paid request gets: none of them is shared, and its receipt and its pass are the
-- gate's.
use anteroom.Common.{
  ℕ, ◌≡◌, refl, sym, ◌∙◌, inl, inr, true, false, Option, none, some, List, [], ◌∷◌, ◌++◌, any,
  any-append, arith, if◌then◌else◌, Bool, ◌||◌, Bool-cases, subst, All, ap, keep, not,
}
use anteroom.Common.Text.{Str, text, str_eq}
use anteroom.Http.{Headers, values-del}
use anteroom.Gate.Writer.{
  PaidWriter, Sent, head, body, flush, flush_through, seal, is_pass_cookie, hold_pass_cookies,
  is_informational, write_header, write, Use, changes, heads, writes, flushes, respond,
}
use anteroom.Gate.Writer.HeaderLines.{
  set_cookies, IsSealed, seal-IsSealed, set_cookies-seal, hold_pass_cookies-Held, none_left,
  none_lost,
}

-- The first response that is not informational, and the informational ones.
unfoldable pub first_final : List Sent → Option Headers
first_final [] = none
first_final (head s h ∷ ss) =
    let rest = first_final ss in if is_informational s then rest else some h
first_final (body b h ∷ ss) = some h
first_final (flush h ∷ ss) = some h

-- The proxy sends a header that is not informational, or a body, before it flushes, as
-- httputil.ReverseProxy does.
unfoldable pub is_opened : List Use → Bool
is_opened [] = true
is_opened (changes f ∷ us) = is_opened us
is_opened (heads status ∷ us) = let rest = is_opened us in not (is_informational status) || rest
is_opened (writes b ∷ us) = true
is_opened (flushes ∷ us) = false

abbrev pub IsClean : Sent → Type 0
IsClean (head s h) = is_informational s ≡ true → any is_pass_cookie (set_cookies h) ≡ false
IsClean (body b h) = Unit
IsClean (flush h) = Unit

informs-IsClean :
    (p : PaidWriter) → any is_pass_cookie (set_cookies (hold_pass_cookies p).headers) ≡ false
informs-IsClean p =
    let held = hold_pass_cookies-Held p (set_cookies p.headers) refl in
    ap (any is_pass_cookie) (
      held.cookies
      ∙ ap (λ xs. xs ++ keep (λ v. not (is_pass_cookie v)) (set_cookies p.headers))
          (values-del (text "Set-Cookie") p.headers))
    ∙ none_left (set_cookies p.headers)

write_header-IsClean : (status : ℕ) (p : PaidWriter) → IsClean (write_header status p).1
unfolding write_header
write_header-IsClean status p e = ground (arith, e, informs-IsClean p)

respond-IsClean : (p : PaidWriter) (us : List Use) → All IsClean (respond p us)
unfolding respond write flush_through
respond-IsClean p [] = tt
respond-IsClean p (changes f ∷ us) = respond-IsClean (record p { headers = f p.headers }) us
respond-IsClean p (heads status ∷ us) =
    (write_header-IsClean status p, respond-IsClean (write_header status p).0 us)
respond-IsClean p (writes b ∷ us) = (tt, respond-IsClean (write b p).0 us)
respond-IsClean p (flushes ∷ us) = (tt, respond-IsClean p us)

module _ (p : PaidWriter) (us : List Use) where
  final-inform :
      (status : ℕ)
      → is_informational status ≡ true
      → first_final (respond p (heads status ∷ us)) ≡ first_final (respond (hold_pass_cookies p) us)
  unfolding respond first_final write_header
  final-inform status i = ground (arith, i)

  final-head :
      (status : ℕ)
      → is_informational status ≡ false
      → first_final (respond p (heads status ∷ us)) ≡ some (seal p).headers
  unfolding respond first_final write_header
  final-head status i = ground (arith, i)

  final-body : (b : Str) → first_final (respond p (writes b ∷ us)) ≡ some (seal p).headers
  unfolding respond first_final write
  final-body b = refl

sealed_headers :
    (p : PaidWriter) (h : Headers)
    → p.sealed ≡ false
    → some (seal p).headers ≡ some h
    → IsSealed p.settle h
sealed_headers p h f e =
    let same : (seal p).headers ≡ h = ground (arith, e) in
    subst (IsSealed p.settle) same (seal-IsSealed p f)

seal_keeps :
    (p : PaidWriter) (c : Str)
    → p.sealed ≡ false
    → any (str_eq c) p.pass_cookies ≡ true
    → (h : Headers) → some (seal p).headers ≡ some h
    → any (str_eq c) (set_cookies h) ≡ true
seal_keeps p c f k h e =
    let same : (seal p).headers ≡ h = ground (arith, e) in
    ap (λ x. any (str_eq c) (set_cookies x)) (sym same)
    ∙ ap (any (str_eq c)) (set_cookies-seal p f)
    ∙ any-append (str_eq c) (set_cookies p.headers) p.pass_cookies
    ∙ ground (arith, k)

first-IsSealed :
    (p : PaidWriter) (us : List Use)
    → is_opened us ≡ true
    → p.sealed ≡ false
    → (h : Headers) → first_final (respond p us) ≡ some h
    → IsSealed p.settle h
unfolding respond first_final is_opened
first-IsSealed p [] o f h e = absurd (ground arith)
first-IsSealed p (changes g ∷ us) o f h e =
    first-IsSealed (record p { headers = g p.headers }) us o f h e
first-IsSealed p (heads status ∷ us) o f h e = elim (Bool-cases (is_informational status)) [
  | inl i ↦
      let held = hold_pass_cookies-Held p (set_cookies p.headers) refl in
      subst (λ s. IsSealed s h) held.settle
        (first-IsSealed (hold_pass_cookies p) us (ground (arith, i)) (held.sealed ∙ f) h
          (sym (final-inform p us status i) ∙ e))
  | inr i ↦ sealed_headers p h f (sym (final-head p us status i) ∙ e)
]
first-IsSealed p (writes b ∷ us) o f h e = sealed_headers p h f (sym (final-body p us b) ∙ e)
first-IsSealed p (flushes ∷ us) o f h e = absurd (ground arith)

-- A pass cookie that is kept is in the first response that is not informational.
first-keeps :
    (p : PaidWriter) (us : List Use) (c : Str)
    → is_opened us ≡ true
    → p.sealed ≡ false
    → any (str_eq c) p.pass_cookies ≡ true
    → (h : Headers) → first_final (respond p us) ≡ some h
    → any (str_eq c) (set_cookies h) ≡ true
unfolding respond first_final is_opened
first-keeps p [] c o f k h e = absurd (ground arith)
first-keeps p (changes g ∷ us) c o f k h e =
    first-keeps (record p { headers = g p.headers }) us c o f k h e
first-keeps p (heads status ∷ us) c o f k h e = elim (Bool-cases (is_informational status)) [
  | inl i ↦
      let held = hold_pass_cookies-Held p (set_cookies p.headers) refl in
      first-keeps (hold_pass_cookies p) us c (ground (arith, i)) (held.sealed ∙ f)
        (ap (any (str_eq c)) held.passes
          ∙ any-append (str_eq c) p.pass_cookies (keep is_pass_cookie (set_cookies p.headers))
          ∙ ground (arith, k))
        h (sym (final-inform p us status i) ∙ e)
  | inr i ↦ seal_keeps p c f k h (sym (final-head p us status i) ∙ e)
]
first-keeps p (writes b ∷ us) c o f k h e = seal_keeps p c f k h (sym (final-body p us b) ∙ e)
first-keeps p (flushes ∷ us) c o f k h e = absurd (ground arith)

-- A pass cookie that the headers hold at an informational response is left out of that response, and
-- is in the first response that is not informational, whatever the proxy does in between, as long as it
-- does not flush before that response.
pub pass_outlives_information :
    (p : PaidWriter) (us : List Use) (status : ℕ) (c : Str) (h : Headers)
    → is_opened us ≡ true
    → p.sealed ≡ false
    → is_informational status ≡ true
    → any (str_eq c) (set_cookies p.headers) ≡ true
    → is_pass_cookie c ≡ true
    → first_final (respond p (heads status ∷ us)) ≡ some h
    → (any is_pass_cookie (set_cookies (write_header status p).0.headers) ≡ false)
      × (any (str_eq c) (set_cookies h) ≡ true)
unfolding write_header
pass_outlives_information p us status c h o f i has pass e =
    let held = hold_pass_cookies-Held p (set_cookies p.headers) refl in
    let kept = none_lost c (set_cookies p.headers) has pass in
    (
      ground (arith, i, informs-IsClean p),
      first-keeps (hold_pass_cookies p) us c o (held.sealed ∙ f)
          (ap (any (str_eq c)) held.passes
            ∙ any-append (str_eq c) p.pass_cookies (keep is_pass_cookie (set_cookies p.headers))
            ∙ ground (arith, kept))
          h (sym (final-inform p us status i) ∙ e),
    )

-- Whatever the proxy does with a paid writer that it does not flush before a header or a body: no
-- informational response carries a pass cookie, and the first other response is sealed, so that no
-- cache shares it, it makes no offer, and its receipt is the gate's, or none.
pub respond-IsSealed :
    (p : PaidWriter) (us : List Use)
    → is_opened us ≡ true
    → p.sealed ≡ false
    → All IsClean (respond p us)
      × ((h : Headers) → first_final (respond p us) ≡ some h → IsSealed p.settle h)
unfolding first_final
respond-IsSealed p us o f = (respond-IsClean p us, first-IsSealed p us o f)
