-- ===== src/Gate/Injection/Transparent.antt =====
-- internal/gate/injector.go: the injector loses no byte of the body, and adds none but a tag in one place.
use anteroom.Common.{
  ◌≡◌, refl, sym, ◌∙◌, ap, subst, inl, inr, true, List, [], ◌∷◌, ◌++◌, append-nil, append_assoc,
  arith, Bool-cases,
}
use anteroom.Common.Text.{Str}
use anteroom.Gate.Injection.{
  Script, Emit, bytes, Injector, send, runs, decide, write_header, write_body, prepend, write,
  finish, Use, changes, heads, writes, respond,
}
use anteroom.Gate.Injection.Settling.{
  sent_bytes, body_of, sent_bytes-append, send_silent, append-nil_bytes, Kept, whole, Kept-append,
  decide-Settles,
}
use anteroom.Gate.Injection.Holding.{
  IsHolding, write_header-HeaderStep, prepend-runs, Outcome-cases, write-Written,
}

module _ (s : Script) where
  finish-Kept :
      (i j : Injector) (es : List Emit)
      → IsHolding s i
      → finish s i ≡ runs j es
      → Kept s i.buf (sent_bytes es)
  unfolding finish
  finish-Kept i j es h e = elim (Bool-cases i.resolved) [
    | inl r ↦
        let same : send i ≡ es = ground (arith, r) in
        whole (ap sent_bytes (sym same) ∙ send_silent i ∙ sym (h.after r))
    | inr r ↦ elim (Outcome-cases s (decide s i)) [
      | inr (inl d) ↦ absurd (ground (arith, r, d))
      | inr (inr d) ↦ absurd (ground (arith, r, d))
      | inl (k, fs, d) ↦
          let same : fs ++ send k ≡ es = ground (arith, r, d) in
          subst (Kept s i.buf) (sym (sent_bytes-append fs (send k)) ∙ ap sent_bytes same) (
            subst (Kept s i.buf)
              (sym (append-nil (sent_bytes fs))
                ∙ ap (λ t. sent_bytes fs ++ t) (sym (send_silent k)))
              (decide-Settles s i k fs d).kept)
    ]
  ]

  -- A settled write puts its bytes out as they are.
  write_resolved :
      (b : Str) (i j : Injector) (es : List Emit)
      → i.resolved ≡ true
      → write s b i ≡ runs j es
      → (j.resolved ≡ true) × (sent_bytes es ≡ b)
  unfolding write write_body
  write_resolved b i j es r e = elim (Bool-cases i.checked) [
    | inl c ↦
        let out : bytes b ∷ [] ≡ es = ground (arith, c, r) in
        (ground (arith, c, r), ap sent_bytes (sym out) ∙ append-nil_bytes b)
    | inr c ↦
        let k = (write_header s 200 i).0 in
        let hs = (write_header s 200 i).1 in
        let t = write_header-HeaderStep s 200 i in
        let kept = t.stays r in
        let front : prepend hs (write_body s b k) ≡ runs j es = ground (arith, c) in
        let (fs, body, same) = prepend-runs s hs es (write_body s b k) j front in
        let out : bytes b ∷ [] ≡ fs = ground (arith, kept, body) in
        (
          ground (arith, kept, body),
          ap sent_bytes same
              ∙ sent_bytes-append hs fs
              ∙ ap (λ x. x ++ sent_bytes fs) t.silent
              ∙ ap sent_bytes (sym out)
              ∙ append-nil_bytes b,
        )
  ]

  -- What a write or a header puts in front of the rest of a response.
  after_front :
      (es fs gs : List Emit) (rest : Str)
      → gs ≡ es ++ fs
      → sent_bytes fs ≡ rest
      → sent_bytes gs ≡ sent_bytes es ++ rest
  after_front es fs gs rest e h =
      ap sent_bytes e ∙ sent_bytes-append es fs ∙ ap (λ t. sent_bytes es ++ t) h

  resolved_passes :
      (us : List Use) (i j : Injector) (es : List Emit)
      → i.resolved ≡ true
      → respond s i us ≡ runs j es
      → sent_bytes es ≡ body_of us
  unfolding respond body_of finish
  resolved_passes [] i j es r e =
      let same : send i ≡ es = ground (arith, r) in ap sent_bytes (sym same) ∙ send_silent i
  resolved_passes (changes f ∷ us) i j es r e =
      resolved_passes us (record i { headers = f i.headers }) j es r e
  resolved_passes (heads status ∷ us) i j es r e =
      let (k, hs) = write_header s status i in
      let t = write_header-HeaderStep s status i in
      let (fs, rest, same) = prepend-runs s hs es (respond s k us) j e in
      after_front hs fs es (body_of us) same (resolved_passes us k j fs (t.stays r) rest)
      ∙ ap (λ x. x ++ body_of us) t.silent
  resolved_passes (writes b ∷ us) i j es r e = elim (Outcome-cases s (write s b i)) [
    | inr (inl w) ↦ absurd (ground (arith, w))
    | inr (inr w) ↦ absurd (ground (arith, w))
    | inl (k, ws, w) ↦
        let front : prepend ws (respond s k us) ≡ runs j es = ground (arith, w) in
        let (fs, rest, same) = prepend-runs s ws es (respond s k us) j front in
        let (settled, wrote) = write_resolved b i k ws r w in
        after_front ws fs es (body_of us) same (resolved_passes us k j fs settled rest)
        ∙ ap (λ x. x ++ body_of us) wrote
  ]

  pub respond_kept :
      (us : List Use) (i j : Injector) (es : List Emit)
      → IsHolding s i
      → respond s i us ≡ runs j es
      → Kept s (i.buf ++ body_of us) (sent_bytes es)
  unfolding respond body_of
  respond_kept [] i j es h e =
      subst (λ g. Kept s g (sent_bytes es)) (sym (append-nil i.buf)) (finish-Kept i j es h e)
  respond_kept (changes f ∷ us) i j es h e =
      respond_kept us (record i { headers = f i.headers }) j es
        (record { after = h.after; before = h.before; opened = h.opened }) e
  respond_kept (heads status ∷ us) i j es h e =
      let (k, hs) = write_header s status i in
      let t = write_header-HeaderStep s status i in
      let (fs, rest, same) = prepend-runs s hs es (respond s k us) j e in
      let quiet : sent_bytes es ≡ sent_bytes fs =
        after_front hs fs es (sent_bytes fs) same refl ∙ ap (λ x. x ++ sent_bytes fs) t.silent in
      subst (λ g. Kept s (g ++ body_of us) (sent_bytes es)) t.same
        (subst (Kept s (k.buf ++ body_of us)) (sym quiet)
          (respond_kept us k j fs (t.holding h) rest))
  respond_kept (writes b ∷ us) i j es h e = elim (Outcome-cases s (write s b i)) [
    | inr (inl w) ↦ absurd (ground (arith, w))
    | inr (inr w) ↦ absurd (ground (arith, w))
    | inl (k, ws, w) ↦
        let front : prepend ws (respond s k us) ≡ runs j es = ground (arith, w) in
        let (fs, rest, same) = prepend-runs s ws es (respond s k us) j front in
        let t = write-Written s b i k ws h w in
        let whole_body = append_assoc i.buf b (body_of us) in
        subst (λ g. Kept s g (sent_bytes es)) whole_body
          (elim t.step [
            | inl (x, y) ↦
                let quiet : sent_bytes es ≡ sent_bytes fs =
                  after_front ws fs es (sent_bytes fs) same refl ∙ ap (λ x. x ++ sent_bytes fs) y in
                subst (λ g. Kept s (g ++ body_of us) (sent_bytes es)) x
                  (subst (Kept s (k.buf ++ body_of us)) (sym quiet)
                    (respond_kept us k j fs t.holding rest))
            | inr z ↦
                subst (Kept s ((i.buf ++ b) ++ body_of us))
                  (sym (
                    after_front ws fs es (body_of us) same
                      (resolved_passes us k j fs z.resolved rest)))
                  (Kept-append s (i.buf ++ b) (sent_bytes ws) (body_of us) z.kept)
          ])
  ]
