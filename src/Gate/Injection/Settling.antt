-- ===== src/Gate/Injection/Settling.antt =====
-- internal/gate/injector.go: a decision puts out what was held, with at most one tag in it.
use anteroom.Common.{
  ℕ, zero, suc, ◌≡◌, refl, sym, ◌∙◌, ap, subst, ◌⊎◌, inl, inr, true, some, List, [], ◌∷◌, ◌++◌,
  append-nil, append_assoc, take, drop, ltb, arith, if◌then◌else◌, Bool-cases, Option-cases,
}
use anteroom.Common.Text.{Str, text, is_empty}
use anteroom.Http.{values}
use anteroom.Gate.Injection.Document.{Point, at, nowhere, panics, spins, head_end, insertion_point}
use anteroom.Gate.Injection.{
  Plan, Script, head_budget, Emit, header, bytes, Injector, send, give_up, inject, runs, decide,
  Use, changes, heads, writes,
}

-- The body that goes out, and the body that the proxy writes.
unfoldable pub sent_bytes : List Emit → Str
sent_bytes [] = []
sent_bytes (header s h ∷ es) = sent_bytes es
sent_bytes (bytes b ∷ es) = b ++ sent_bytes es

unfoldable pub body_of : List Use → Str
body_of [] = []
body_of (changes f ∷ us) = body_of us
body_of (heads s ∷ us) = body_of us
body_of (writes b ∷ us) = b ++ body_of us

pub sent_bytes-append : (es fs : List Emit) → sent_bytes (es ++ fs) ≡ sent_bytes es ++ sent_bytes fs
unfolding sent_bytes
sent_bytes-append [] fs = refl
sent_bytes-append (header s h ∷ es) fs = sent_bytes-append es fs
sent_bytes-append (bytes b ∷ es) fs =
    ap (λ t. b ++ t) (sent_bytes-append es fs)
    ∙ sym (append_assoc b (sent_bytes es) (sent_bytes fs))

take-drop : (n : ℕ) (b : Str) → take n b ++ drop n b ≡ b
take-drop zero b = refl
take-drop (suc n) [] = refl
take-drop (suc n) (c ∷ b) = ap (λ t. c ∷ t) (take-drop n b)

pub send_silent : (i : Injector) → sent_bytes (send i) ≡ []
unfolding send sent_bytes
send_silent i = elim (Bool-cases i.sent) [ inl e ↦ ground (arith, e) | inr e ↦ ground (arith, e) ]

held : (b : Str) → sent_bytes (if is_empty b then [] else bytes b ∷ []) ≡ b
unfolding sent_bytes
held [] = refl
held (c ∷ b) = append-nil (c ∷ b)

pub Point-cases :
    (x : Point) → ((n : ℕ) × (x ≡ at n)) ⊎ ((x ≡ nowhere) ⊎ ((x ≡ panics) ⊎ (x ≡ spins)))
Point-cases (at n) = inl (n, refl)
Point-cases nowhere = inr (inl refl)
Point-cases panics = inr (inr (inl refl))
Point-cases spins = inr (inr (inr refl))

pub append-nil_bytes : (b : Str) → sent_bytes (bytes b ∷ []) ≡ b
unfolding sent_bytes
append-nil_bytes b = append-nil b

pub silence : sent_bytes [] ≡ []
unfolding sent_bytes
silence = refl

pub gave_up :
    (i j : Injector) (es : List Emit)
    → runs (give_up i).0 (give_up i).1 ≡ runs j es
    → j.checked ≡ i.checked
unfolding give_up
gave_up i j es h = ground arith

module _ (s : Script) where
  -- The body as it was, or with the tag of a plan put in at one place.
  pub data Kept (given out : Str) : Type 0 where
    whole : out ≡ given → Kept given out
    tagged :
        (csp report : List Str) (doc : Str) (p : Plan) (x y : Str)
        → s.plan csp report doc ≡ some p
        → given ≡ x ++ y
        → out ≡ x ++ (p.tag ++ y)
        → Kept given out

  pub Kept-append : (given out rest : Str) → Kept given out → Kept (given ++ rest) (out ++ rest)
  Kept-append given out rest (whole e) = whole (ap (λ t. t ++ rest) e)
  Kept-append given out rest (tagged csp report doc p x y k g o) =
      tagged csp report doc p x (y ++ rest) k (ap (λ t. t ++ rest) g ∙ append_assoc x y rest) (
        ap (λ t. t ++ rest) o
        ∙ append_assoc x (p.tag ++ y) rest
        ∙ ap (λ t. x ++ t) (append_assoc p.tag y rest))

  -- A call that settles the response: what was held has gone out.
  pub record Settles (given : Str) (j : Injector) (es : List Emit) : Type 0 where
    pub resolved : j.resolved ≡ true
    pub emptied : j.buf ≡ []
    pub kept : Kept given (sent_bytes es)

  pub give_up-Settles : (i : Injector) → Settles i.buf (give_up i).0 (give_up i).1
  unfolding give_up sent_bytes
  give_up-Settles i = record {
    resolved = refl;
    emptied = refl;
    kept = whole (
        sent_bytes-append (send i) (if is_empty i.buf then [] else bytes i.buf ∷ [])
        ∙ ap (λ t. t ++ sent_bytes (if is_empty i.buf then [] else bytes i.buf ∷ []))
            (send_silent i)
        ∙ held i.buf);
  }

  inject-Settles :
      (csp report : List Str) (doc : Str) (p : Plan) (point : ℕ) (i : Injector)
      → s.plan csp report doc ≡ some p
      → Settles i.buf (inject p point i).0 (inject p point i).1
  unfolding inject sent_bytes
  inject-Settles csp report doc p point i k = record {
    resolved = refl;
    emptied = refl;
    kept =
        tagged csp report doc p (take point i.buf) (drop point i.buf) k
          (sym (take-drop point i.buf))
          (ap (λ t. take point i.buf ++ (p.tag ++ t)) (append-nil (drop point i.buf)));
  }

  pub settled :
      (i : Injector) (pair : Injector × List Emit) (j : Injector) (es : List Emit)
      → Settles i.buf pair.0 pair.1
      → runs pair.0 pair.1 ≡ runs j es
      → Settles i.buf j es
  settled i pair j es t e =
      let a : pair.0 ≡ j = ground (arith, e) in
      let b : pair.1 ≡ es = ground (arith, e) in
      subst (λ x. Settles i.buf j x) b (subst (λ x. Settles i.buf x pair.1) a t)

  pub decide-Settles :
      (i j : Injector) (es : List Emit) → decide s i ≡ runs j es → Settles i.buf j es
  unfolding decide
  decide-Settles i j es h = elim (Point-cases (insertion_point s.lower i.buf)) [
    | inr (inr (inl e)) ↦ absurd (ground (arith, e))
    | inr (inr (inr e)) ↦ absurd (ground (arith, e))
    | inr (inl e) ↦ settled i (give_up i) j es (give_up-Settles i) (ground (arith, e))
    | inl (point, e) ↦ elim (Option-cases (head_end s.lower i.buf)) [
      | inl f ↦ settled i (give_up i) j es (give_up-Settles i) (ground (arith, e, f))
      | inr (end, f) ↦ elim (Bool-cases (ltb head_budget end)) [
        | inl g ↦ settled i (give_up i) j es (give_up-Settles i) (ground (arith, e, f, g))
        | inr g ↦
            let csp =
              s.plan (values (text "Content-Security-Policy") i.headers)
                (values (text "Content-Security-Policy-Report-Only") i.headers) i.buf in
            elim (Option-cases csp) [
              | inl k ↦ settled i (give_up i) j es (give_up-Settles i) (ground (arith, e, f, g, k))
              | inr (p, k) ↦
                  settled i (inject p point i) j es
                    (inject-Settles (values (text "Content-Security-Policy") i.headers)
                      (values (text "Content-Security-Policy-Report-Only") i.headers) i.buf p point
                      i k)
                    (ground (arith, e, f, g, k))
            ]
      ]
    ]
  ]

  pub decide_checked :
      (i j : Injector) (es : List Emit) → decide s i ≡ runs j es → j.checked ≡ i.checked
  unfolding decide give_up inject
  decide_checked i j es h = elim (Point-cases (insertion_point s.lower i.buf)) [
    | inr (inr (inl e)) ↦ absurd (ground (arith, e))
    | inr (inr (inr e)) ↦ absurd (ground (arith, e))
    | inr (inl e) ↦ ground (arith, e)
    | inl (point, e) ↦ elim (Option-cases (head_end s.lower i.buf)) [
      | inl f ↦ ground (arith, e, f)
      | inr (end, f) ↦ elim (Bool-cases (ltb head_budget end)) [
        | inl g ↦ ground (arith, e, f, g)
        | inr g ↦
            let csp =
              s.plan (values (text "Content-Security-Policy") i.headers)
                (values (text "Content-Security-Policy-Report-Only") i.headers) i.buf in
            elim (Option-cases csp) [
              | inl k ↦ ground (arith, e, f, g, k)
              | inr (p, k) ↦ ground (arith, e, f, g, k)
            ]
      ]
    ]
  ]
