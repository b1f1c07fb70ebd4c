-- ===== src/Gate/Injection/Returning.antt =====
-- internal/gate/injector.go: a response with an ASCII body comes to its end, and every response that does keeps its body.
use anteroom.Common.{
  sym, ◌<◌, All-append, ◌≡◌, refl, subst, ap, inl, inr, Bool, true, none, some, List, [], ◌∷◌, ◌++◌,
  length, ltb, leb, arith, Bool-cases, Option-cases,
}
use anteroom.Common.Text.{Str, text}
use anteroom.Http.{Headers, values}
use anteroom.Gate.Injection.Document.{looks_like_document, head_end, insertion_point}
use anteroom.Gate.Injection.Placing.{IsAscii, IsPlaced, insertion_point-IsPlaced}
use anteroom.Gate.Injection.{
  Script, head_budget, Emit, Injector, new_injector, send, give_up, inject, Outcome, runs, decide,
  write_header, write_body, prepend, write, finish, Use, changes, heads, writes, respond,
}
use anteroom.Gate.Injection.Settling.{sent_bytes, body_of, Point-cases, Kept}
use anteroom.Gate.Injection.Holding.{IsHolding, write_header-HeaderStep, write-Written}
use anteroom.Gate.Injection.Transparent.{respond_kept}

All-split : (s t : Str) → IsAscii (s ++ t) → IsAscii s × IsAscii t
All-split [] t a = (tt, a)
All-split (c ∷ s) t a = let (x, y) = All-split s t a.1 in ((a.0, x), y)

-- The program goes on.
abbrev IsRunning : Outcome → Type 0
IsRunning o = (j : Injector) × (es : List Emit) × (o ≡ runs j es)

prepend-IsRunning : (es : List Emit) (o : Outcome) → IsRunning o → IsRunning (prepend es o)
unfolding prepend
prepend-IsRunning es o (j, fs, e) = (j, es ++ fs, ap (prepend es) e)

module _ (s : Script) (keeps : (t : Str) → IsAscii t → length (s.lower t) ≡ length t) where
  decide-IsRunning : (i : Injector) → IsAscii i.buf → IsRunning (decide s i)
  unfolding decide
  decide-IsRunning i ascii =
      let placed = insertion_point-IsPlaced s.lower keeps i.buf ascii in
      elim (Point-cases (insertion_point s.lower i.buf)) [
        | inr (inr (inl e)) ↦ absurd (subst (IsPlaced i.buf) e placed)
        | inr (inr (inr e)) ↦ absurd (subst (IsPlaced i.buf) e placed)
        | inr (inl e) ↦ ((give_up i).0, (give_up i).1, ground (arith, e))
        | inl (point, e) ↦ elim (Option-cases (head_end s.lower i.buf)) [
          | inl f ↦ ((give_up i).0, (give_up i).1, ground (arith, e, f))
          | inr (end, f) ↦ elim (Bool-cases (ltb head_budget end)) [
            | inl g ↦ ((give_up i).0, (give_up i).1, ground (arith, e, f, g))
            | inr g ↦
                let csp =
                  s.plan (values (text "Content-Security-Policy") i.headers)
                    (values (text "Content-Security-Policy-Report-Only") i.headers) i.buf in
                elim (Option-cases csp) [
                  | inl k ↦ ((give_up i).0, (give_up i).1, ground (arith, e, f, g, k))
                  | inr (p, k) ↦
                      ((inject p point i).0, (inject p point i).1, ground (arith, e, f, g, k))
                ]
          ]
        ]
      ]

  write_body-IsRunning :
      (b : Str) (i : Injector) → IsAscii (i.buf ++ b) → IsRunning (write_body s b i)
  unfolding write_body
  write_body-IsRunning b i ascii =
      let more : Injector = record i { buf = i.buf ++ b } in
      elim (Bool-cases i.resolved) [
        | inl r ↦ (i, Emit.bytes b ∷ [], ground (arith, r))
        | inr r ↦ elim (Bool-cases (looks_like_document (i.buf ++ b))) [
          | inr n ↦ ((give_up more).0, (give_up more).1, ground (arith, r, n))
          | inl y ↦
              elim (Bool-cases (elim (head_end s.lower (i.buf ++ b)) as (λ x. Bool) [
                | none ↦ leb head_budget (length (i.buf ++ b))
                | some end ↦ true
              ])) [
                | inl d ↦
                    let (j, es, e) = decide-IsRunning more ascii in
                    (j, es, ground (arith, r, y, d, e))
                | inr d ↦ (more, [], ground (arith, r, y, d))
              ]
        ]
      ]

  write-IsRunning : (b : Str) (i : Injector) → IsAscii (i.buf ++ b) → IsRunning (write s b i)
  unfolding write
  write-IsRunning b i ascii = elim (Bool-cases i.checked) [
    | inl c ↦ let (j, es, e) = write_body-IsRunning b i ascii in (j, es, ground (arith, c, e))
    | inr c ↦
        let (k, hs) = write_header s 200 i in
        let t = write_header-HeaderStep s 200 i in
        let held = subst (λ x. IsAscii (x ++ b)) (sym t.same) ascii in
        let (j, es, e) = prepend-IsRunning hs (write_body s b k) (write_body-IsRunning b k held) in
        (j, es, ground (arith, c, e))
  ]

  finish-IsRunning : (i : Injector) → IsAscii i.buf → IsRunning (finish s i)
  unfolding finish
  finish-IsRunning i ascii = elim (Bool-cases i.resolved) [
    | inl r ↦ (record i { sent = true }, send i, ground (arith, r))
    | inr r ↦
        let (j, es, e) = decide-IsRunning i ascii in
        (record j { sent = true }, es ++ send j, ground (arith, r, e))
  ]

  respond-IsRunning :
      (us : List Use) (i : Injector)
      → IsHolding s i
      → IsAscii i.buf
      → IsAscii (body_of us)
      → IsRunning (respond s i us)
  unfolding respond body_of
  respond-IsRunning [] i h a c = finish-IsRunning i a
  respond-IsRunning (changes f ∷ us) i h a c =
      respond-IsRunning us (record i { headers = f i.headers })
        (record { after = h.after; before = h.before; opened = h.opened }) a c
  respond-IsRunning (heads status ∷ us) i h a c =
      let (k, hs) = write_header s status i in
      let t = write_header-HeaderStep s status i in
      prepend-IsRunning hs (respond s k us)
        (respond-IsRunning us k (t.holding h) (subst IsAscii (sym t.same) a) c)
  respond-IsRunning (writes b ∷ us) i h a c =
      let (front, rest) = All-split b (body_of us) c in
      let ascii = All-append (λ x. x < 128) i.buf b a front in
      let (k, ws, e) = write-IsRunning b i ascii in
      let t = write-Written s b i k ws h e in
      let kept : IsAscii k.buf = elim t.step [
        | inl (same, quiet) ↦ subst IsAscii (sym same) ascii
        | inr settles ↦ subst IsAscii (sym settles.emptied) tt
      ] in
      let (j, es, f) =
        prepend-IsRunning ws (respond s k us) (respond-IsRunning us k t.holding kept rest) in
      (j, es, ground (arith, e, f))

-- The injector that has just been made holds nothing.
new_injector-IsHolding : (s : Script) (h : Headers) → IsHolding s (new_injector h)
new_injector-IsHolding s h = record {
  after = λ z. refl;
  before = λ z. refl;
  opened = λ z. absurd (ground (arith, z));
}

-- When a response comes to its end, whatever bytes.ToLower does and whatever the body is, the body that
-- goes out is the body that was written, whole or with the tag of a plan put in at one place.
pub respond-Kept :
    (s : Script) (h : Headers) (us : List Use) (j : Injector) (es : List Emit)
    → respond s (new_injector h) us ≡ runs j es
    → Kept s (body_of us) (sent_bytes es)
respond-Kept s h us j es e = respond_kept s us (new_injector h) j es (new_injector-IsHolding s h) e

-- The injector takes every sequence of changes of the headers, headers and writes with an ASCII body to
-- an end, without a panic, and the body that goes out is the body that was written, whole or with the
-- tag of a plan put in at one place; bytes.ToLower keeps the length of ASCII.
pub response_ends :
    (s : Script) (h : Headers) (us : List Use)
    → ((t : Str) → IsAscii t → length (s.lower t) ≡ length t)
    → IsAscii (body_of us)
    → (j : Injector) × (es : List Emit) × (respond s (new_injector h) us ≡ runs j es)
      × Kept s (body_of us) (sent_bytes es)
response_ends s h us keeps ascii =
    let (j, es, e) =
      respond-IsRunning s keeps us (new_injector h) (new_injector-IsHolding s h) tt ascii in
    (j, es, e, respond-Kept s h us j es e)
