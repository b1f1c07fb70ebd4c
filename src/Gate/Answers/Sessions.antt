-- ===== src/Gate/Answers/Sessions.antt =====
-- What an accepted answer earns, and how far a session of renewals reaches.
use anteroom.Common.{
  ◌+◌, ◌-◌, ◌/◌, ◌==◌, ==_iff, ◌++◌, length, second, refl, ◌≢◌, ◌≡◌, ap, ◌∙◌, ◌<◌, ◌≤◌, inl, inr,
  Option, none, some, ◌∷◌, pos, pos_part, neg_part, Time, unix, from_unix, arith, Option-cases,
  Bool-cases, subst,
}
use anteroom.Common.Text.{Str, text, str_eq, str_eq_iff}
use anteroom.Common.Result.{ok, Result-cases}
use anteroom.Http.{Request, header}
use anteroom.Token.{Pass, kind_pow, scope_all, root_at, validate, mint}
use anteroom.Challenge
use anteroom.Challenge.{Profile, kind_renew, check_pow, from_bytes}
use anteroom.Challenge.Threshold.{AreBytes, check_pow_iff}
use anteroom.Gate.Passes.{
  Gate, Cookie, may_renew, client_prefix, valid_pass_at, request_audience, bind_pass,
  set_pass_cookie,
}
use anteroom.Gate.Passes.Entitlement.{Carries, valid_pass_at-Carries}
use anteroom.Gate.Answers.{Door, solved, session, serve_answer}

-- A pass of the request, live when the challenge was issued, of a session that was not yet too old.
pub record IsRenewable (g : Gate) (r : Request) (at root : Time) : Type 0 where
  pub old : Pass
  pub cookie : Str × Str
  pub carried : Carries g r at old cookie
  pub kind : old.kind ≡ kind_pow
  pub scope : old.scope ≡ scope_all
  pub starts : root ≡ from_unix (pos_part (root_at old))
  pub young : at - root < g.max_session

may_renew-IsRenewable :
    (g : Gate) (r : Request) (at root : Time)
    → may_renew g r at ≡ some root
    → IsRenewable g r at root
unfolding may_renew
may_renew-IsRenewable g r at root h = elim (Option-cases (valid_pass_at g r at)) [
  | inl e ↦ absurd (ground (arith, e))
  | inr (p, e) ↦
      let (c, carried) = valid_pass_at-Carries g r at p e in
      let same : root ≡ from_unix (pos_part (root_at p)) = ground (arith, e) in
      record {
        old = p;
        cookie = c;
        carried = carried;
        kind = (str_eq_iff p.kind kind_pow).0 (ground (arith, e));
        scope = (str_eq_iff p.scope scope_all).0 (ground (arith, e));
        starts = same;
        young = ground (arith, e, same);
      }
]

root_bounds : (p : Pass) → validate p ≡ none → neg_part (root_at p) + 1 ≤ pos_part (root_at p)
unfolding validate root_at
root_bounds p v = ground arith

-- A pass for every path, bound to the authority, the address and the browser of the request, dated now.
pub record IsBound (g : Gate) (r : Request) (now exp : Time) (p : Pass) : Type 0 where
  pub kind : p.kind ≡ text "pow"
  pub scope : p.scope ≡ text "*"
  pub audience : p.aud ≡ request_audience g.net r
  pub dated : p.iat ≡ pos (now / second)
  pub expires : p.exp ≡ pos (exp / second)
  pub network : p.ipp ≡ client_prefix g r
  pub browser : p.uah ≡ g.ua_hash (header r (text "User-Agent"))

bind_pass-IsBound :
    (g : Gate) (r : Request) (now exp : Time) (root : Option Time)
    → IsBound g r now exp (bind_pass g r now solved exp root)
unfolding bind_pass str_eq text
bind_pass-IsBound g r now exp none = record {
  kind = refl;
  scope = refl;
  audience = refl;
  dated = refl;
  expires = refl;
  network = refl;
  browser = refl;
}
bind_pass-IsBound g r now exp (some t) = record {
  kind = refl;
  scope = refl;
  audience = refl;
  dated = refl;
  expires = refl;
  network = refl;
  browser = refl;
}

-- The session of an answer: an admission starts one, and a renewal continues that of a pass that was
-- renewable when the challenge was issued.
pub data Continues (g : Gate) (r : Request) (at : Time) (profile : Profile) (p : Pass)
    : Type 0 where
  begins : profile.kind ≢ 2 → p.rt ≡ pos 0 → Continues g r at profile p
  renews :
      (root : Time)
      → profile.kind ≡ 2
      → IsRenewable g r at root
      → p.rt ≡ pos (unix root)
      → Continues g r at profile p

session-Continues :
    (d : Door) (r : Request) (at now exp : Time) (p : Profile) (root : Option Time)
    → session d r at p ≡ ok root
    → Continues d.gate r at p (bind_pass d.gate r now solved exp root)
unfolding session bind_pass str_eq text
session-Continues d r at now exp p none h = elim (Bool-cases (p.kind == 2)) [
  | inl k ↦ elim (Option-cases (may_renew d.gate r at)) [
    | inl e ↦ absurd (ground (arith, k, e))
    | inr (t, e) ↦ absurd (ground (arith, k, e))
  ]
  | inr k ↦ begins (λ e. ground (arith, k, e)) refl
]
session-Continues d r at now exp p (some root) h = elim (Bool-cases (p.kind == 2)) [
  | inl k ↦ elim (Option-cases (may_renew d.gate r at)) [
    | inl e ↦ absurd (ground (arith, k, e))
    | inr (t, e) ↦
        let same : t ≡ root = ground (arith, k, e) in
        renews root ((==_iff p.kind 2).0 k)
          (may_renew-IsRenewable d.gate r at root (e ∙ ap some same)) refl
  ]
  | inr k ↦ absurd (ground (arith, k))
]

-- What an accepted answer rests on: an authentic challenge of this authority that has not run out, a
-- nonce whose hash is below its threshold, and the pass that is made, with the session it continues.
pub record IsEarned (d : Door) (r : Request) (now : Time) (challenge nonce : Str) (cookie : Cookie)
    : Type 0 where
  pub issued_at : Time
  pub profile : Profile
  pub pass : Pass
  pub authentic :
      Challenge.verify d.hashing
        (d.sign_key ∷ d.other_keys)
        challenge
        (request_audience d.gate.net r)
        now
      ≡ ok (issued_at, profile)
  pub solution :
      length (d.hashing.sha256 (challenge ++ nonce)) ≡ length profile.threshold
      → AreBytes (d.hashing.sha256 (challenge ++ nonce))
      → AreBytes profile.threshold
      → from_bytes 0 (d.hashing.sha256 (challenge ++ nonce)) < from_bytes 0 profile.threshold
  pub in_time : now < issued_at + pos_part profile.ttl
  pub bound : IsBound d.gate r now (issued_at + pos_part profile.ttl) pass
  pub continues : Continues d.gate r issued_at profile pass
  pub minted : mint d.gate.crypto d.gate.keyring pass ≡ ok cookie.value

set_pass_cookie-value :
    (g : Gate) (r : Request) (now : Time) (p : Pass) (exp : Time) (root : Option Time) (c : Cookie)
    → set_pass_cookie g r now p exp root ≡ ok c
    → mint g.crypto g.keyring (bind_pass g r now p exp root) ≡ ok c.value
unfolding set_pass_cookie
set_pass_cookie-value g r now p exp root c h =
    elim (Result-cases (mint g.crypto g.keyring (bind_pass g r now p exp root))) [
      | inl (s, e) ↦ ground (arith, e)
      | inr (x, e) ↦ absurd (ground (arith, e))
    ]

-- An accepted answer is earned: its challenge is authentic and has not run out, the hash of its nonce
-- is below the threshold, and its pass is for every path, bound to the authority, the address and the
-- browser of the request, dated now, and expires the lifetime of the profile after the issue. The pass
-- starts a session, or continues that of a pass of the request that could be renewed at the issue.
pub serve_answer-IsEarned :
    (d : Door) (r : Request) (now : Time) (challenge nonce : Str) (cookie : Cookie)
    → serve_answer d r now challenge nonce ≡ ok cookie
    → IsEarned d r now challenge nonce cookie
unfolding serve_answer
serve_answer-IsEarned d r now challenge nonce cookie h =
    elim (Result-cases (
      Challenge.verify d.hashing (d.sign_key ∷ d.other_keys) challenge
        (request_audience d.gate.net r) now)) [
          | inr (x, e) ↦ absurd (ground (arith, e))
          | inl ((issued_at, profile), e) ↦ elim (Result-cases (session d r issued_at profile)) [
            | inr (x, f) ↦ absurd (ground (arith, e, f))
            | inl (root, f) ↦
                let exp = issued_at + pos_part profile.ttl in
                elim (Result-cases (set_pass_cookie d.gate r now solved exp root)) [
                  | inr (x, k) ↦ absurd (ground (arith, e, f, k))
                  | inl (c, k) ↦
                      let same : c ≡ cookie = ground (arith, e, f, k) in
                      record {
                        issued_at = issued_at;
                        profile = profile;
                        pass = bind_pass d.gate r now solved exp root;
                        authentic = e;
                        solution = λ w x y.
                            (check_pow_iff d.hashing challenge nonce profile.threshold w x y).0
                              (ground (arith, e, f));
                        in_time = ground (arith, e, f);
                        bound = bind_pass-IsBound d.gate r now exp root;
                        continues = session-Continues d r issued_at now exp profile root f;
                        minted =
                            set_pass_cookie-value d.gate r now solved exp root cookie
                              (k ∙ ap ok same);
                      }
                ]
          ]
        ]

-- A renewal continues a session and does not prolong it: an accepted answer to an authentic challenge
-- of the kind of renewals makes a pass with the root of a pass of the request that could be renewed when
-- the challenge was issued, and the new pass expires before the longest session from that root and one
-- lifetime of a pass are over.
pub renewal_bounded :
    (d : Door) (r : Request) (now issued_at : Time) (challenge nonce : Str) (cookie : Cookie)
    (profile : Profile)
    → serve_answer d r now challenge nonce ≡ ok cookie
    → Challenge.verify d.hashing
        (d.sign_key ∷ d.other_keys)
        challenge
        (request_audience d.gate.net r)
        now
      ≡ ok (issued_at, profile)
    → profile.kind ≡ kind_renew
    → (root : Time) × (p : Pass) × IsRenewable d.gate r issued_at root
      × (mint d.gate.crypto d.gate.keyring p ≡ ok cookie.value)
      × (root_at p ≡ pos (unix root))
      × (from_unix (pos_part p.exp) < root + d.gate.max_session + pos_part profile.ttl)
unfolding root_at
renewal_bounded d r now issued_at challenge nonce cookie profile h a k =
    let e = serve_answer-IsEarned d r now challenge nonce cookie h in
    let same_time : e.issued_at ≡ issued_at = ground (arith, e.authentic, a) in
    let same_profile : e.profile ≡ profile = ground (arith, e.authentic, a) in
    let exp : pos_part e.pass.exp ≡ (issued_at + pos_part profile.ttl) / second =
      ap pos_part e.bound.expires
      ∙ ap (λ t. (t + pos_part e.profile.ttl) / second) same_time
      ∙ ap (λ q. (issued_at + pos_part q.ttl) / second) same_profile in
    elim e.continues [
      | begins other fresh ↦ absurd (other (ap (λ q. q.kind) same_profile ∙ k))
      | renews root same renewable rooted ↦
          let old = subst (λ t. IsRenewable d.gate r t root) same_time renewable in
          let big = root_bounds old.old old.carried.accepted.valid in
          let late : 1 ≤ unix root = omega (arith, old.starts, big) in
          (
            root,
            e.pass,
            old,
            e.minted,
            ground (arith, rooted, late),
            rw exp (omega (arith, old.young)),
          )
    ]
