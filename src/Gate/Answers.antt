-- ===== src/Gate/Answers.antt =====
-- internal/gate/endpoints.go: the issue of challenges, and the answers that earn passes.
pub mod Sessions
pub mod Examples
use anteroom.Common.{
  ℕ, ◌+◌, ◌-◌, ◌*◌, Bool, true, false, ◌&&◌, ◌||◌, not, Option, none, some, List, [], ◌∷◌, leb, ltb,
  ◌==◌, ℤ, pos, pos_part, if◌then◌else◌, Time, Duration, second, unix,
}
use anteroom.Common.Text.{Str, text, str_eq}
use anteroom.Common.Result.{Result, ok, err}
use anteroom.Http.{Request}
use anteroom.Token.{Pass, kind_pow, scope_all, version}
use anteroom.Challenge
use anteroom.Challenge.{Profile, kind_renew, check_pow}
use anteroom.Gate.Passes.{Gate, Cookie, may_renew, request_audience, set_pass_cookie}

-- What the endpoints add to the gate: the challenge keys, the first of which signs, and the profiles.
pub record Door : Type 0 where
  pub gate : Gate
  pub hashing : Challenge.Crypto
  pub sign_key : Str
  pub other_keys : List Str
  pub admit : Profile
  pub renew : Profile

-- The profile of a new challenge.
unfoldable pub choose_profile : Door → Request → Time → Profile
choose_profile d r now = elim (may_renew d.gate r now) [ none ↦ d.admit | some root ↦ d.renew ]

-- serveChallenge, for GET: the challenge, its profile and its deadline.
unfoldable pub serve_challenge :
    Door → Request → Time → Option Str → Result Challenge.Error (Str × (Profile × Time))
unfolding choose_profile
serve_challenge d r now entropy =
    let profile = choose_profile d r now in
    elim (Challenge.issue d.hashing d.sign_key now (request_audience d.gate.net r) profile
      entropy) [
        | err e ↦ err e
        | ok (s, issued_at) ↦ ok (s, (profile, issued_at + pos_part profile.ttl))
      ]

-- What noteAnswer records.
pub data Refusal : Type 0 where
  malformed stale bad_pow window_elapsed error : Refusal

-- The pass of an answer, before it is bound to its request.
abbrev pub solved : Pass
solved = record {
  v = pos 0;
  kid = [];
  kind = kind_pow;
  scope = scope_all;
  aud = [];
  iat = pos 0;
  exp = pos 0;
  ipp = [];
  uah = [];
  rt = pos 0;
  payer = [];
  tx = [];
}

-- The session that an answer continues: `ok none` for an admission.
unfoldable pub session : Door → Request → Time → Profile → Result Refusal (Option Time)
session d r issued_at profile =
    if profile.kind == kind_renew
    then elim (may_renew d.gate r issued_at) [ none ↦ err bad_pow | some root ↦ ok (some root) ]
    else ok none

-- The outcome of a challenge that does not verify.
unfoldable pub refusal : Challenge.Error → Refusal
refusal Challenge.stale = stale
refusal e = malformed

-- serveAnswer, for a POST whose body decodes; the clock is read before, and not between the steps.
unfoldable pub serve_answer : Door → Request → Time → Str → Str → Result Refusal Cookie
unfolding session
serve_answer d r now challenge nonce =
    elim (Challenge.verify d.hashing (d.sign_key ∷ d.other_keys) challenge
      (request_audience d.gate.net r) now) [
        | err e ↦ err (refusal e)
        | ok (issued_at, profile) ↦ elim (session d r issued_at profile) [
          | err e ↦ err e
          | ok root ↦
              if not (check_pow d.hashing challenge nonce profile.threshold)
              then err bad_pow
              else let exp = issued_at + pos_part profile.ttl in
                if leb exp now
                then err window_elapsed
                else elim (set_pass_cookie d.gate r now solved exp root) [
                  | err e ↦ err error
                  | ok c ↦ ok c
                ]
        ]
      ]
