-- ===== src/Challenge/Threshold.antt =====
-- CheckPoW compares big-endian numbers.
use anteroom.Common.{ℕ, ◌+◌, ◌*◌, ◌≡◌, ◌<◌, ◌↔◌, true, [], ◌∷◌, ◌++◌, length, All, arith}
use anteroom.Common.Text.{Str}
use anteroom.Challenge.{Crypto, from_bytes, below, check_pow}

abbrev pub AreBytes : Str → Type 0
AreBytes s = All (λ b. b < 256) s

from_bytes_mono :
    (a b : ℕ) (s t : Str)
    → a < b
    → length s ≡ length t
    → AreBytes s
    → from_bytes a s < from_bytes b t
unfolding from_bytes
from_bytes_mono a b [] [] l e h = l
from_bytes_mono a b [] (d ∷ t) l e h = absurd (omega arith)
from_bytes_mono a b (c ∷ s) [] l e h = absurd (omega arith)
from_bytes_mono a b (c ∷ s) (d ∷ t) l e h =
    from_bytes_mono (a * 256 + c) (b * 256 + d) s t (omega (arith, h.0)) (omega arith) h.1

below_lem :
    (a : ℕ) (s t : Str)
    → length s ≡ length t
    → AreBytes s
    → AreBytes t
    → (below s t ≡ true) ↔ (from_bytes a s < from_bytes a t)
unfolding below from_bytes
below_lem a [] [] e hs ht = (λ z. ground arith, λ z. ground arith)
below_lem a [] (d ∷ t) e hs ht = absurd (omega arith)
below_lem a (c ∷ s) [] e hs ht = absurd (omega arith)
below_lem a (c ∷ s) (d ∷ t) e hs ht =
    let up = from_bytes_mono (a * 256 + c) (a * 256 + d) s t in
    let down = from_bytes_mono (a * 256 + d) (a * 256 + c) t s in
    let rest = below_lem (a * 256 + c) s t (omega arith) hs.1 ht.1 in
    (ground (arith, up, rest.0, hs.1), ground (arith, down, rest.1, ht.1))

-- A solution is accepted exactly when the hash of the challenge and the nonce, read as a big-endian
-- number, is strictly below the threshold, for a hash and a threshold of the same length in bytes.
pub check_pow_iff :
    (c : Crypto) (challenge nonce threshold : Str)
    → length (c.sha256 (challenge ++ nonce)) ≡ length threshold
    → AreBytes (c.sha256 (challenge ++ nonce))
    → AreBytes threshold
    → (check_pow c challenge nonce threshold ≡ true)
      ↔ (from_bytes 0 (c.sha256 (challenge ++ nonce)) < from_bytes 0 threshold)
unfolding check_pow
check_pow_iff c challenge nonce threshold = below_lem 0 (c.sha256 (challenge ++ nonce)) threshold
