-- ===== src/Token/Rotation.antt =====
-- NewKeyring: the first key signs and every key verifies.
use anteroom.Common.{◌≤◌, ◌≡◌, ◌≢◌, none, some, List, [], ◌∷◌, ◌++◌, length, All, arith}
use anteroom.Common.Text.{Str, str_eq_iff}
use anteroom.Common.Result.{ok}
use anteroom.Token.{Key, Keyring, find_key, add_keys, new_keyring, signing_key}

-- A key that the ring holds under its own identifier, of at least 16 bytes.
pub record Holds (m : List (Str × Str)) (k : Key) : Type 0 where
  pub named : k.kid ≢ []
  pub strong : 16 ≤ length k.key
  pub found : find_key k.kid m ≡ some k.key

find_key-append :
    (j v : Str) (m n : List (Str × Str)) → find_key j m ≡ some v → find_key j (m ++ n) ≡ some v
unfolding find_key
find_key-append j v [] n h = cc
find_key-append j v ((i, w) ∷ m) n h = ground (arith, find_key-append j v m n)

find_key-last :
    (j v : Str) (m : List (Str × Str))
    → find_key j m ≡ none
    → find_key j (m ++ (j, v) ∷ []) ≡ some v
unfolding find_key
find_key-last j v [] h = ground (arith, str_eq_iff j j)
find_key-last j v ((i, w) ∷ m) h = ground (arith, find_key-last j v m)

-- One round of the loop that succeeds.
add_keys-cons :
    (k : Key) (ks : List Key) (m r : List (Str × Str))
    → add_keys (k ∷ ks) m ≡ ok r
    → (k.kid ≢ [])
      × (16 ≤ length k.key)
      × (find_key k.kid m ≡ none)
      × (add_keys ks (m ++ (k.kid, k.key) ∷ []) ≡ ok r)
unfolding add_keys
add_keys-cons k ks m r h = ground arith

-- What the ring held before the loop it holds after it.
add_keys-keeps :
    (ks : List Key) (m r : List (Str × Str))
    → add_keys ks m ≡ ok r
    → (j v : Str) → find_key j m ≡ some v
    → find_key j r ≡ some v
add_keys-keeps [] m r h j v e = unfold add_keys in cc
add_keys-keeps (k ∷ ks) m r h j v e =
    let step = add_keys-cons k ks m r h in
    add_keys-keeps ks _ r step.3 j v (find_key-append j v m _ e)

add_keys-Holds : (ks : List Key) (m r : List (Str × Str)) → add_keys ks m ≡ ok r → All (Holds r) ks
add_keys-Holds [] m r h = tt
add_keys-Holds (k ∷ ks) m r h =
    let step = add_keys-cons k ks m r h in
    (
      record {
        named = step.0;
        strong = step.1;
        found = add_keys-keeps ks _ r step.3 k.kid k.key (find_key-last k.kid k.key m step.2);
      },
      add_keys-Holds ks _ r step.3,
    )

new_keyring-parts :
    (k : Key) (ks : List Key) (kr : Keyring)
    → new_keyring (k ∷ ks) ≡ ok kr
    → (add_keys (k ∷ ks) [] ≡ ok kr.keys) × (kr.sign_kid ≡ k.kid)
unfolding new_keyring
new_keyring-parts k ks kr h = ground arith

-- A keyring that NewKeyring accepts holds each of its keys under that key's own identifier, with at
-- least 16 bytes of key material, and signs with the first.
pub new_keyring_lem :
    (k : Key) (ks : List Key) (kr : Keyring)
    → new_keyring (k ∷ ks) ≡ ok kr
    → All (Holds kr.keys) (k ∷ ks) × (kr.sign_kid ≡ k.kid) × (signing_key kr ≡ k.key)
unfolding signing_key
new_keyring_lem k ks kr h =
    let (added, first) = new_keyring-parts k ks kr h in
    let held = add_keys-Holds (k ∷ ks) [] kr.keys added in
    (held, first, ground (arith, held.0.found))

-- A signing keyring whose key is one of another ring's keys, as while keys are rotated.
abbrev pub Covers : Keyring → Keyring → Type 0
Covers signer verifier = find_key signer.sign_kid verifier.keys ≡ some (signing_key signer)

All-mem :
    (m : List (Str × Str)) (before after : List Key) (k : Key)
    → All (Holds m) (before ++ k ∷ after)
    → Holds m k
All-mem m [] after k h = h.0
All-mem m (b ∷ before) after k h = All-mem m before after k h.1

-- Rotation: a ring that lists the signer's first key, at any place, covers the signer.
pub Covers-rotated :
    (k : Key) (ks before after : List Key) (signer verifier : Keyring)
    → new_keyring (k ∷ ks) ≡ ok signer
    → new_keyring (before ++ k ∷ after) ≡ ok verifier
    → Covers signer verifier
Covers-rotated k ks [] after signer verifier hs hv =
    let s = new_keyring_lem k ks signer hs in
    let v = new_keyring_lem k after verifier hv in rw (s.2, s.1) v.0.0.found
Covers-rotated k ks (b ∷ before) after signer verifier hs hv =
    let s = new_keyring_lem k ks signer hs in
    let v = new_keyring_lem b (before ++ k ∷ after) verifier hv in
    rw (s.2, s.1) (All-mem verifier.keys before after k v.0.1).found
