-- ===== src/Gate/Injection/Holding.antt =====
-- internal/gate/injector.go: what the injector holds between its calls.
use anteroom.Common.{
  ℕ, ◌≡◌, refl, sym, ◌∙◌, ap, subst, ◌⊎◌, inl, inr, Bool, true, false, ◌||◌, none, some, List, [],
  ◌∷◌, ◌++◌, length, leb, arith, Bool-cases,
}
use anteroom.Common.Text.{Str}
use anteroom.Gate.Writer.{is_informational}
use anteroom.Gate.Injection.Document.{looks_like_document, head_end}
use anteroom.Gate.Injection.{
  Script, head_budget, is_skipped, Emit, bytes, Injector, give_up, Outcome, runs, crashes, stuck,
  decide, write_header, write_body, prepend, write,
}
use anteroom.Gate.Injection.Settling.{
  sent_bytes, sent_bytes-append, append-nil_bytes, silence, gave_up, Kept, whole, Settles,
  give_up-Settles, settled, decide-Settles, decide_checked,
}

module _ (s : Script) where
  -- What is held is held for a decision: nothing after it, and nothing before the headers are vetted.
  pub record IsHolding (i : Injector) : Type 0 where
    pub after : i.resolved ≡ true → i.buf ≡ []
    pub before : i.checked ≡ false → i.buf ≡ []
    pub opened : i.sent ≡ true → i.checked ≡ true

  pub record HeaderStep (i j : Injector) (es : List Emit) : Type 0 where
    pub silent : sent_bytes es ≡ []
    pub same : j.buf ≡ i.buf
    pub stays : i.resolved ≡ true → j.resolved ≡ true
    pub holding : IsHolding i → IsHolding j

  pub write_header-HeaderStep :
      (status : ℕ) (i : Injector)
      → HeaderStep i (write_header s status i).0 (write_header s status i).1
  unfolding write_header sent_bytes
  write_header-HeaderStep status i = elim (Bool-cases (is_informational status)) [
    | inl e ↦ record {
      silent = ground (arith, e);
      same = ground (arith, e);
      stays = ground (arith, e);
      holding = λ h.
          let a = h.after in
          let b = h.before in
          let o = h.opened in
          record {
            after = λ r. ground (arith, e, a, b, r);
            before = λ c. ground (arith, e, a, b, c);
            opened = λ c. ground (arith, e, a, b, o, c);
          };
    }
    | inr e ↦ elim (Bool-cases (i.sent || i.checked)) [
      | inl f ↦ record {
        silent = ground (arith, e, f);
        same = ground (arith, e, f);
        stays = ground (arith, e, f);
        holding = λ h.
            let a = h.after in
            let b = h.before in
            let o = h.opened in
            record {
              after = λ r. ground (arith, e, f, a, b, r);
              before = λ c. ground (arith, e, f, a, b, c);
              opened = λ c. ground (arith, e, f, a, b, o, c);
            };
      }
      | inr f ↦ elim (Bool-cases (is_skipped s status i.headers)) [
        | inl g ↦ record {
          silent = ground (arith, e, f, g);
          same = ground (arith, e, f, g);
          stays = ground (arith, e, f, g);
          holding = λ h.
              let a = h.after in
              let b = h.before in
              let o = h.opened in
              record {
                after = λ r. ground (arith, e, f, g, a, b, r);
                before = λ c. ground (arith, e, f, g, a, b, c);
                opened = λ c. ground (arith, e, f, g, a, b, o, c);
              };
        }
        | inr g ↦ record {
          silent = ground (arith, e, f, g);
          same = ground (arith, e, f, g);
          stays = ground (arith, e, f, g);
          holding = λ h.
              let a = h.after in
              let b = h.before in
              let o = h.opened in
              record {
                after = λ r. ground (arith, e, f, g, a, b, r);
                before = λ c. ground (arith, e, f, g, a, b, c);
                opened = λ c. ground (arith, e, f, g, a, b, o, c);
              };
        }
      ]
    ]
  ]

  -- A write holds its bytes, or settles the response.
  record WriteStep (i : Injector) (b : Str) (j : Injector) (es : List Emit) : Type 0 where
    vetted : j.checked ≡ i.checked
    step :
        ((j.resolved ≡ false) × (j.buf ≡ i.buf ++ b) × (sent_bytes es ≡ []))
        ⊎ Settles s (i.buf ++ b) j es

  more : Injector → Str → Injector
  more i b = record i { buf = i.buf ++ b }

  write_body-WriteStep :
      (b : Str) (i j : Injector) (es : List Emit)
      → (i.resolved ≡ true → i.buf ≡ [])
      → write_body s b i ≡ runs j es
      → WriteStep i b j es
  unfolding write_body more
  write_body-WriteStep b i j es a h = elim (Bool-cases i.resolved) [
    | inl r ↦
        let same : i ≡ j = ground (arith, r) in
        let out : bytes b ∷ [] ≡ es = ground (arith, r) in
        let nothing = a r in
        subst (λ x. WriteStep i b x es) same
          (subst (WriteStep i b i) out (record {
            vetted = refl;
            step = inr (record {
              resolved = r;
              emptied = nothing;
              kept = whole (append-nil_bytes b ∙ ap (λ t. t ++ b) (sym nothing));
            });
          }))
    | inr r ↦ elim (Bool-cases (looks_like_document (more i b).buf)) [
      | inr n ↦
          let out : runs (give_up (more i b)).0 (give_up (more i b)).1 ≡ runs j es =
            ground (arith, r, n) in
          record {
            vetted = gave_up (more i b) j es out;
            step =
                inr (
                  settled s (more i b) (give_up (more i b)) j es (give_up-Settles s (more i b))
                    out);
          }
      | inl y ↦
          elim (Bool-cases (elim (head_end s.lower (more i b).buf) as (λ x. Bool) [
            | none ↦ leb head_budget (length (more i b).buf)
            | some end ↦ true
          ])) [
            | inl d ↦
                let out : decide s (more i b) ≡ runs j es = ground (arith, r, y, d) in
                record {
                  vetted = decide_checked s (more i b) j es out;
                  step = inr (decide-Settles s (more i b) j es out);
                }
            | inr d ↦
                let same : more i b ≡ j = ground (arith, r, y, d) in
                let out : [] ≡ es = ground (arith, r, y, d) in
                record {
                  vetted = ground (arith, same);
                  step = inl (
                    ground (arith, same, r),
                    ground (arith, same),
                    ap sent_bytes (sym out) ∙ silence,
                  );
                }
          ]
    ]
  ]

  pub Outcome-cases :
      (o : Outcome)
      → ((i : Injector) × (es : List Emit) × (o ≡ runs i es)) ⊎ ((o ≡ crashes) ⊎ (o ≡ stuck))
  Outcome-cases (runs i es) = inl (i, es, refl)
  Outcome-cases crashes = inr (inl refl)
  Outcome-cases stuck = inr (inr refl)

  -- What follows emissions that are put in front.
  pub prepend-runs :
      (es gs : List Emit) (o : Outcome) (j : Injector)
      → prepend es o ≡ runs j gs
      → (fs : List Emit) × (o ≡ runs j fs) × (gs ≡ es ++ fs)
  unfolding prepend
  prepend-runs es gs (runs i fs) j h = (fs, ground arith, ground arith)
  prepend-runs es gs crashes j h = absurd (ground arith)
  prepend-runs es gs stuck j h = absurd (ground arith)

  pub opens : (i : Injector) → IsHolding i → (write_header s 200 i).0.checked ≡ true
  unfolding write_header is_informational
  opens i h = elim (Bool-cases (i.sent || i.checked)) [
    | inl f ↦ let o = h.opened in ground (arith, f, o)
    | inr f ↦ elim (Bool-cases (is_skipped s 200 i.headers)) [
      | inl g ↦ ground (arith, f, g)
      | inr g ↦ ground (arith, f, g)
    ]
  ]

  -- The state after a write, and what it did.
  pub record Written (given : Str) (j : Injector) (es : List Emit) : Type 0 where
    pub holding : IsHolding j
    pub step : ((j.buf ≡ given) × (sent_bytes es ≡ [])) ⊎ Settles s given j es

  vetted_write :
      (b : Str) (i j : Injector) (es : List Emit)
      → i.checked ≡ true
      → (i.resolved ≡ true → i.buf ≡ [])
      → write_body s b i ≡ runs j es
      → Written (i.buf ++ b) j es
  vetted_write b i j es c a h =
      let w = write_body-WriteStep b i j es a h in
      let known : j.checked ≡ true = w.vetted ∙ c in
      elim w.step [
        | inl (r, held_, quiet) ↦ record {
          holding = record {
            after = λ z. absurd (ground (arith, r, z));
            before = λ z. absurd (ground (arith, known, z));
            opened = λ z. known;
          };
          step = inl (held_, quiet);
        }
        | inr t ↦ record {
          holding = record { after = λ z. t.emptied; before = λ z. t.emptied; opened = λ z. known };
          step = inr t;
        }
      ]

  pub write-Written :
      (b : Str) (i j : Injector) (es : List Emit)
      → IsHolding i
      → write s b i ≡ runs j es
      → Written (i.buf ++ b) j es
  unfolding write
  write-Written b i j es h e = elim (Bool-cases i.checked) [
    | inl c ↦ vetted_write b i j es c h.after (ground (arith, c))
    | inr c ↦
        let k = (write_header s 200 i).0 in
        let hs = (write_header s 200 i).1 in
        let t = write_header-HeaderStep 200 i in
        let front : prepend hs (write_body s b k) ≡ runs j es = ground (arith, c) in
        let (fs, body, same) = prepend-runs hs es (write_body s b k) j front in
        let w = vetted_write b k j fs (opens i h) (t.holding h).after body in
        let quiet : sent_bytes es ≡ sent_bytes fs =
          ap sent_bytes same ∙ sent_bytes-append hs fs ∙ ap (λ x. x ++ sent_bytes fs) t.silent in
        record {
          holding = w.holding;
          step = elim w.step [
            | inl (x, y) ↦ inl (x ∙ ap (λ x. x ++ b) t.same, quiet ∙ y)
            | inr z ↦ inr (record {
              resolved = z.resolved;
              emptied = z.emptied;
              kept =
                  subst (λ g. Kept s (g ++ b) (sent_bytes es)) t.same
                    (subst (Kept s (k.buf ++ b)) (sym quiet) z.kept);
            })
          ];
        }
  ]
