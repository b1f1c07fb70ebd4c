-- ===== src/Token/RoundTrip.antt =====
-- Mint followed by Verify, on one instance or on two that share a key.
use anteroom.Common.{
  ◌+◌, ◌≡◌, refl, ◌≢◌, none, some, ◌∷◌, ◌++◌, All, arith, pos, ◌<ℤ◌, ◌≤ℤ◌, Time, unix,
}
use anteroom.Common.Text.{Str, cut-append}
use anteroom.Common.Result.{ok}
use anteroom.Token.{
  Crypto, Pass, Keyring, mint, verify, tag, validate, version, clock_skew, signing_key,
}
use anteroom.Token.Rotation.{Covers}
use anteroom.Token.Soundness.{verify-eq-ok_iff}

-- What base64.RawURLEncoding promises: decoding undoes encoding, and the alphabet has no dot.
pub record Encodes (c : Crypto) : Type 0 where
  pub decode-encode : (x : Str) → c.b64_decode (c.b64_encode x) ≡ some x
  pub no_dot : (x : Str) → All (λ b. b ≢ b'.') (c.b64_encode x)

-- The pass that Mint signs for `p`.
abbrev pub stamp : Keyring → Pass → Pass
stamp kr p = record p { v = pos version; kid = kr.sign_kid }

module _ (c : Crypto) (laws : Encodes c) where
  stamp-valid : (kr : Keyring) (p : Pass) → validate (stamp kr p) ≡ validate p
  unfolding validate
  stamp-valid kr p = refl

  mint-eq-ok :
      (kr : Keyring) (p : Pass) (s : Str)
      → mint c kr p ≡ ok s
      → (validate p ≡ none)
        × (s
            ≡ c.b64_encode (c.marshal (stamp kr p))
              ++ b'.' ∷ c.b64_encode (tag c (signing_key kr) (c.marshal (stamp kr p))))
  unfolding mint
  mint-eq-ok kr p s h = ground arith

  -- A pass that one instance mints is accepted by every instance whose ring covers the signer, from the
  -- clock skew before it was issued until it expires, when its JSON decodes to the pass that was
  -- marshalled: Verify then returns the stamped pass.
  pub verify-mint :
      (signer verifier : Keyring) (p : Pass) (s : Str) (now : Time)
      → mint c signer p ≡ ok s
      → Covers signer verifier
      → c.unmarshal (c.marshal (stamp signer p)) ≡ some (stamp signer p)
      → pos (unix now) <ℤ p.exp
      → p.iat ≤ℤ pos (unix (now + clock_skew))
      → verify c verifier s now ≡ ok (stamp signer p)
  verify-mint signer verifier p s now minted covers json live started =
      let (valid, e) = mint-eq-ok signer p s minted in
      let payload = c.marshal (stamp signer p) in
      (verify-eq-ok_iff c verifier s now (stamp signer p)).1 (record {
        signed = record {
          payload64 = c.b64_encode payload;
          tag64 = c.b64_encode (tag c (signing_key signer) payload);
          payload = payload;
          key = signing_key signer;
          parts = rw e (cut-append _ _ _ (laws.no_dot payload));
          decoded = laws.decode-encode payload;
          signed = laws.decode-encode _;
          parsed = json;
          current = refl;
          known = covers;
        };
        valid = rw (stamp-valid signer p) valid;
        live = live;
        started = started;
      })
