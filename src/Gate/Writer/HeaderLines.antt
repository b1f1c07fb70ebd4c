-- ===== src/Gate/Writer/HeaderLines.antt =====
-- The headers that seal and holdPassCookies leave.
use anteroom.Common.{
  ◌≡◌, refl, sym, ◌∙◌, inl, inr, true, false, List, [], ◌∷◌, ◌++◌, any, arith, if◌then◌else◌,
  Bool-cases, subst, append-nil, append_assoc, ap, keep, not,
}
use anteroom.Common.Text.{Str, text, is_empty, str_eq, str_eq_iff, equal_fold, to_lower}
use anteroom.Http.{
  Headers, values, del, add, set, values-del, values-del_other, values-add, values-set,
  values-set_other, equal_fold_refl,
}
use anteroom.Gate.Ladder.{add_all}
use anteroom.Gate.Writer.{PaidWriter, seal, is_pass_cookie, hold_values, hold_pass_cookies}

abbrev pub set_cookies : Headers → List Str
set_cookies h = values (text "Set-Cookie") h

-- What every final response of a paid request says.
pub record IsSealed (settle : Str) (h : Headers) : Type 0 where
  pub unshared : values (text "Cache-Control") h ≡ text "no-store, private" ∷ []
  pub uncached : values (text "Pragma") h ≡ text "no-cache" ∷ []
  pub undated : values (text "Expires") h ≡ []
  pub receipt : values (text "PAYMENT-RESPONSE") h ≡ (if is_empty settle then [] else settle ∷ [])
  pub no_offer : values (text "PAYMENT-REQUIRED") h ≡ []

names_differ :
    (equal_fold (text "PAYMENT-REQUIRED") (text "Cache-Control") ≡ false)
    × (equal_fold (text "PAYMENT-RESPONSE") (text "Cache-Control") ≡ false)
    × (equal_fold (text "Expires") (text "Cache-Control") ≡ false)
    × (equal_fold (text "Pragma") (text "Cache-Control") ≡ false)
    × (equal_fold (text "PAYMENT-REQUIRED") (text "Pragma") ≡ false)
    × (equal_fold (text "PAYMENT-RESPONSE") (text "Pragma") ≡ false)
    × (equal_fold (text "Expires") (text "Pragma") ≡ false)
    × (equal_fold (text "PAYMENT-REQUIRED") (text "Expires") ≡ false)
    × (equal_fold (text "PAYMENT-RESPONSE") (text "Expires") ≡ false)
    × (equal_fold (text "PAYMENT-REQUIRED") (text "PAYMENT-RESPONSE") ≡ false)
unfolding equal_fold to_lower str_eq text
names_differ = (refl, refl, refl, refl, refl, refl, refl, refl, refl, refl)

cookie_names_differ :
    (equal_fold (text "PAYMENT-REQUIRED") (text "Set-Cookie") ≡ false)
    × (equal_fold (text "PAYMENT-RESPONSE") (text "Set-Cookie") ≡ false)
    × (equal_fold (text "Expires") (text "Set-Cookie") ≡ false)
    × (equal_fold (text "Pragma") (text "Set-Cookie") ≡ false)
    × (equal_fold (text "Cache-Control") (text "Set-Cookie") ≡ false)
unfolding equal_fold to_lower str_eq text
cookie_names_differ = (refl, refl, refl, refl, refl)

-- The receipt of the seal.
abbrev receipt : Str → Headers → Headers
receipt settle h =
    if is_empty settle
    then del (text "PAYMENT-RESPONSE") h
    else set (text "PAYMENT-RESPONSE") settle h

values-receipt_other :
    (settle name : Str) (h : Headers)
    → equal_fold (text "PAYMENT-RESPONSE") name ≡ false
    → values name (receipt settle h) ≡ values name h
values-receipt_other [] name h f = values-del_other (text "PAYMENT-RESPONSE") name h f
values-receipt_other (c ∷ s) name h f = values-set_other (text "PAYMENT-RESPONSE") name (c ∷ s) h f

values-receipt :
    (settle : Str) (h : Headers)
    → values (text "PAYMENT-RESPONSE") (receipt settle h)
      ≡ (if is_empty settle then [] else settle ∷ [])
values-receipt [] h = values-del (text "PAYMENT-RESPONSE") h
values-receipt (c ∷ s) h = values-set (text "PAYMENT-RESPONSE") (c ∷ s) h

pub seal-IsSealed : (p : PaidWriter) → p.sealed ≡ false → IsSealed p.settle (seal p).headers
unfolding seal
seal-IsSealed p f =
    let h0 = add_all (text "Set-Cookie") p.pass_cookies p.headers in
    let h1 = set (text "Cache-Control") (text "no-store, private") h0 in
    let h2 = set (text "Pragma") (text "no-cache") h1 in
    let h3 = del (text "Expires") h2 in
    let h4 = receipt p.settle h3 in
    let (rc, pc, ec, gc, rp, pp, ep, re, pe, rr) = names_differ in
    let whole : (seal p).headers ≡ del (text "PAYMENT-REQUIRED") h4 = ground (arith, f) in
    subst (IsSealed p.settle) (sym whole) (record {
      unshared =
          values-del_other (text "PAYMENT-REQUIRED") (text "Cache-Control") h4 rc
          ∙ values-receipt_other p.settle (text "Cache-Control") h3 pc
          ∙ values-del_other (text "Expires") (text "Cache-Control") h2 ec
          ∙ values-set_other (text "Pragma") (text "Cache-Control") (text "no-cache") h1 gc
          ∙ values-set (text "Cache-Control") (text "no-store, private") h0;
      uncached =
          values-del_other (text "PAYMENT-REQUIRED") (text "Pragma") h4 rp
          ∙ values-receipt_other p.settle (text "Pragma") h3 pp
          ∙ values-del_other (text "Expires") (text "Pragma") h2 ep
          ∙ values-set (text "Pragma") (text "no-cache") h1;
      undated =
          values-del_other (text "PAYMENT-REQUIRED") (text "Expires") h4 re
          ∙ values-receipt_other p.settle (text "Expires") h3 pe
          ∙ values-del (text "Expires") h2;
      receipt =
          values-del_other (text "PAYMENT-REQUIRED") (text "PAYMENT-RESPONSE") h4 rr
          ∙ values-receipt p.settle h3;
      no_offer = values-del (text "PAYMENT-REQUIRED") h4;
    })

values-add_all :
    (name : Str) (vs : List Str) (h : Headers)
    → values name (add_all name vs h) ≡ values name h ++ vs
unfolding add_all
values-add_all name [] h = sym (append-nil (values name h))
values-add_all name (v ∷ vs) h =
    values-add_all name vs (add name v h)
    ∙ ap (λ xs. xs ++ vs) (values-add name name v h ∙ ground (arith, equal_fold_refl name))
    ∙ append_assoc (values name h) (v ∷ []) vs

pub set_cookies-seal :
    (p : PaidWriter)
    → p.sealed ≡ false
    → set_cookies (seal p).headers ≡ set_cookies p.headers ++ p.pass_cookies
unfolding seal
set_cookies-seal p f =
    let h0 = add_all (text "Set-Cookie") p.pass_cookies p.headers in
    let h1 = set (text "Cache-Control") (text "no-store, private") h0 in
    let h2 = set (text "Pragma") (text "no-cache") h1 in
    let h3 = del (text "Expires") h2 in
    let h4 = receipt p.settle h3 in
    let (r, q, e, g, c) = cookie_names_differ in
    let whole : (seal p).headers ≡ del (text "PAYMENT-REQUIRED") h4 = ground (arith, f) in
    rw whole (
      values-del_other (text "PAYMENT-REQUIRED") (text "Set-Cookie") h4 r
      ∙ values-receipt_other p.settle (text "Set-Cookie") h3 q
      ∙ values-del_other (text "Expires") (text "Set-Cookie") h2 e
      ∙ values-set_other (text "Pragma") (text "Set-Cookie") (text "no-cache") h1 g
      ∙ values-set_other (text "Cache-Control") (text "Set-Cookie") (text "no-store, private") h0 c
      ∙ values-add_all (text "Set-Cookie") p.pass_cookies p.headers)

-- What the loop of holdPassCookies does: it moves the pass cookies, and puts back the others.
pub record Held (vs : List Str) (p q : PaidWriter) : Type 0 where
  pub cookies :
      set_cookies q.headers ≡ set_cookies p.headers ++ keep (λ v. not (is_pass_cookie v)) vs
  pub passes : q.pass_cookies ≡ p.pass_cookies ++ keep is_pass_cookie vs
  pub sealed : q.sealed ≡ p.sealed
  pub settle : q.settle ≡ p.settle

hold_values-Held : (vs : List Str) (p : PaidWriter) → Held vs p (hold_values vs p)
unfolding hold_values keep
hold_values-Held [] p = record {
  cookies = sym (append-nil (set_cookies p.headers));
  passes = sym (append-nil p.pass_cookies);
  sealed = refl;
  settle = refl;
}
hold_values-Held (v ∷ vs) p = elim (Bool-cases (is_pass_cookie v)) [
  | inl e ↦
      let q : PaidWriter = record p { pass_cookies = p.pass_cookies ++ v ∷ [] } in
      let h = hold_values-Held vs q in
      let step : hold_values (v ∷ vs) p ≡ hold_values vs q = ground (arith, e) in
      subst (Held (v ∷ vs) p) (sym step) (record {
        cookies = h.cookies ∙ ground (arith, e);
        passes =
            h.passes
            ∙ append_assoc p.pass_cookies (v ∷ []) (keep is_pass_cookie vs)
            ∙ ground (arith, e);
        sealed = h.sealed;
        settle = h.settle;
      })
  | inr e ↦
      let q : PaidWriter = record p { headers = add (text "Set-Cookie") v p.headers } in
      let h = hold_values-Held vs q in
      let step : hold_values (v ∷ vs) p ≡ hold_values vs q = ground (arith, e) in
      let others = keep (λ w. not (is_pass_cookie w)) vs in
      subst (Held (v ∷ vs) p) (sym step) (record {
        cookies =
            h.cookies
            ∙ ap (λ xs. xs ++ others)
                (values-add (text "Set-Cookie") (text "Set-Cookie") v p.headers
                  ∙ ground (arith, equal_fold_refl (text "Set-Cookie")))
            ∙ append_assoc (set_cookies p.headers) (v ∷ []) others
            ∙ ground (arith, e);
        passes = h.passes ∙ ground (arith, e);
        sealed = h.sealed;
        settle = h.settle;
      })
]

pub hold_pass_cookies-Held :
    (p : PaidWriter) (vs : List Str)
    → set_cookies p.headers ≡ vs
    → Held vs (record p { headers = del (text "Set-Cookie") p.headers }) (hold_pass_cookies p)
unfolding hold_pass_cookies keep
hold_pass_cookies-Held p [] e =
    let step : hold_pass_cookies p ≡ p = ground (arith, e) in
    subst (Held [] (record p { headers = del (text "Set-Cookie") p.headers })) (sym step) (record {
      cookies = e ∙ sym (values-del (text "Set-Cookie") p.headers ∙ refl) ∙ sym (append-nil _);
      passes = sym (append-nil p.pass_cookies);
      sealed = refl;
      settle = refl;
    })
hold_pass_cookies-Held p (v ∷ vs) e =
    let q : PaidWriter = record p { headers = del (text "Set-Cookie") p.headers } in
    let step : hold_pass_cookies p ≡ hold_values (v ∷ vs) q = ground (arith, e) in
    subst (Held (v ∷ vs) q) (sym step) (hold_values-Held (v ∷ vs) q)

-- The pass cookies of a list of lines are not among those that are put back, and are all kept.
pub none_left : (vs : List Str) → any is_pass_cookie (keep (λ v. not (is_pass_cookie v)) vs) ≡ false
unfolding any keep
none_left [] = refl
none_left (v ∷ vs) = ground (arith, none_left vs)

pub none_lost :
    (c : Str) (vs : List Str)
    → any (str_eq c) vs ≡ true
    → is_pass_cookie c ≡ true
    → any (str_eq c) (keep is_pass_cookie vs) ≡ true
unfolding any keep
none_lost c [] h e = h
none_lost c (v ∷ vs) h e = ground (arith, none_lost c vs, str_eq_iff c v)
