-- ===== src/Challenge/Bytes.antt =====
-- The bytes of a challenge: numbers and profiles are read back as they were written.
use anteroom.Common.{
  ℕ, zero, suc, ◌+◌, ◌*◌, ◌/◌, ◌%◌, ◌^◌, ◌≡◌, refl, sym, ◌∙◌, ap, ◌<◌, true, some, [], ◌∷◌, ◌++◌,
  length, take, drop, length-append, take-append, drop-append, arith, pos, int64,
}
use anteroom.Common.Text.{Str}
use anteroom.Challenge.{Profile, validate, big_endian, from_bytes, uint64, parse_profile}

pub length-big_endian : (n u : ℕ) → length (big_endian n u) ≡ n
unfolding big_endian
length-big_endian zero u = refl
length-big_endian (suc n) u =
    ground
      (arith, length-big_endian n (u / 256), length-append (big_endian n (u / 256)) (u % 256 ∷ []))

from_bytes-snoc : (a : ℕ) (s : Str) (b : ℕ) → from_bytes a (s ++ b ∷ []) ≡ from_bytes a s * 256 + b
unfolding from_bytes
from_bytes-snoc a [] b = refl
from_bytes-snoc a (c ∷ s) b = from_bytes-snoc (a * 256 + c) s b

pub from_bytes-big_endian : (n u : ℕ) → u < 256 ^ n → from_bytes 0 (big_endian n u) ≡ u
unfolding big_endian from_bytes
from_bytes-big_endian zero u h = omega arith
from_bytes-big_endian (suc n) u h =
    let pow : 256 ^ suc n ≡ 256 ^ n * 256 = omega arith in
    let rest : from_bytes 0 (big_endian n (u / 256)) ≡ u / 256 =
      from_bytes-big_endian n (u / 256) (omega (arith, pow)) in
    from_bytes-snoc 0 (big_endian n (u / 256)) (u % 256) ∙ omega (arith, rest)

-- The encoding of a profile.
abbrev pub encoded : Profile → Str
encoded p = 1 ∷ p.kind ∷ big_endian 8 (uint64 p.ttl) ++ p.threshold

pub take-at : (n : ℕ) (xs ys : Str) → length xs ≡ n → take n (xs ++ ys) ≡ xs
take-at n xs ys e = rw (sym e) (take-append xs ys)

pub drop-at : (n : ℕ) (xs ys : Str) → length xs ≡ n → drop n (xs ++ ys) ≡ ys
drop-at n xs ys e = rw (sym e) (drop-append xs ys)

uint64-pos : (n : ℕ) → uint64 (pos n) ≡ n
unfolding uint64
uint64-pos n = refl

int64-small : (n : ℕ) → n < 2 ^ 63 → int64 n ≡ pos n
unfolding int64
int64-small n h = ground arith

-- A profile whose lifetime is below 2 ^ 63 nanoseconds and whose threshold has 32 bytes is parsed as it
-- was encoded.
pub parse_profile-encoded :
    (p : Profile) (n : ℕ)
    → p.ttl ≡ pos n
    → n < 2 ^ 63
    → length p.threshold ≡ 32
    → validate p ≡ true
    → parse_profile (encoded p) ≡ some p
unfolding parse_profile
parse_profile-encoded p n e b l v =
    let ttl8 = big_endian 8 (uint64 p.ttl) in
    let eight = length-big_endian 8 (uint64 p.ttl) in
    let all40 = length-append ttl8 p.threshold in
    let front = take-at 8 ttl8 p.threshold eight in
    let back = drop-at 8 ttl8 p.threshold eight in
    let number : uint64 p.ttl ≡ n = ap uint64 e ∙ uint64-pos n in
    let reads = from_bytes-big_endian 8 (uint64 p.ttl) (omega (arith, number, b)) in
    let signed = int64-small n b in
    let same : int64 (from_bytes 0 ttl8) ≡ p.ttl = ap int64 (reads ∙ number) ∙ signed ∙ sym e in
    rw (front, back, same, all40, eight, l) (ground (arith, v))
