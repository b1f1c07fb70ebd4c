-- ===== src/Crawler/Backing.antt =====
-- A verdict that the cache answers was confirmed within its time to live.
use anteroom.Common.{
  ◌+◌, ◌<◌, ◌≡◌, refl, sym, subst, ◌≢◌, ◌⊎◌, inl, inr, Bool, true, false, ◌&&◌, not, Option, none,
  some, List, [], ◌∷◌, any, length, ltb, leb, arith, if◌then◌else◌, Bool-cases, Option-cases, Any,
  Any-map, All,
}
use anteroom.Net.{prefix_contains, addr_eq-eq}
use anteroom.Crawler.{
  Verdict, unverified, verified, indeterminate, verify_dns, CacheKey, CacheEntry, Cache,
  max_cache_entries, dns_cache_ttl, key_eq, get, put, is_unverified, cache_store_key, recall,
  drop_first, remember, Ask, learn, verify_provider, same_bool, is_4,
}
use anteroom.Crawler.Remembering.{cache_after}
use anteroom.Crawler.Confirming.{IsConfirmed, verify_dns-verified_iff}

-- An earlier request whose confirmation stands behind an entry.
record Stands (k : CacheKey) (e : CacheEntry) (q : Ask) : Type 0 where
  provider : q.provider.id ≡ k.provider
  addr : q.addr ≡ k.addr
  expires : e.expires ≡ q.now + dns_cache_ttl
  confirmed : IsConfirmed q.resolver q.provider q.addr

-- An entry that is not negative is a confirmation; a negative one has the verdict Unverified.
record IsBacked (qs : List Ask) (x : CacheKey × CacheEntry) : Type 0 where
  negative : x.0.negative ≡ true → x.1.verdict ≡ unverified
  positive : x.0.negative ≡ false → Any (Stands x.0 x.1) qs

key_eq-eq : (j k : CacheKey) → key_eq j k ≡ true → j ≡ k
unfolding key_eq same_bool
key_eq-eq j k h =
    let a = addr_eq-eq j.addr k.addr (ground arith) in
    let p : j.provider ≡ k.provider = ground arith in
    let n : j.negative ≡ k.negative = ground arith in ground (arith, a, p, n)

put-IsBacked :
    (qs : List Ask) (k : CacheKey) (e : CacheEntry) (c : Cache)
    → IsBacked qs (k, e)
    → All (IsBacked qs) c
    → All (IsBacked qs) (put k e c)
unfolding put
put-IsBacked qs k e [] b h = (b, tt)
put-IsBacked qs k e ((j, f) ∷ c) b h = elim (Bool-cases (key_eq j k)) [
  | inl same ↦
      let step : put k e ((j, f) ∷ c) ≡ (j, e) ∷ c = ground (arith, same) in
      subst (All (IsBacked qs)) (sym step)
        (subst (λ i. IsBacked qs (i, e)) (sym (key_eq-eq j k same)) b, h.1)
  | inr differ ↦
      let step : put k e ((j, f) ∷ c) ≡ (j, f) ∷ put k e c = ground (arith, differ) in
      subst (All (IsBacked qs)) (sym step) (h.0, put-IsBacked qs k e c b h.1)
]

get-IsBacked :
    (qs : List Ask) (k : CacheKey) (e : CacheEntry) (c : Cache)
    → All (IsBacked qs) c
    → get k c ≡ some e
    → IsBacked qs (k, e)
unfolding get
get-IsBacked qs k e [] h g = absurd (ground arith)
get-IsBacked qs k e ((j, f) ∷ c) h g = elim (Bool-cases (key_eq j k)) [
  | inl same ↦
      let value : f ≡ e = ground (arith, same) in
      subst (λ x. IsBacked qs (k, x)) value
        (subst (λ i. IsBacked qs (i, f)) (key_eq-eq j k same) h.0)
  | inr differ ↦ get-IsBacked qs k e c h.1 (ground (arith, differ))
]

older-IsBacked :
    (q : Ask) (qs : List Ask) (c : Cache) → All (IsBacked qs) c → All (IsBacked (q ∷ qs)) c
older-IsBacked q qs [] h = tt
older-IsBacked q qs (x ∷ c) h = (
  record { negative = h.0.negative; positive = λ n. inr (h.0.positive n) },
  older-IsBacked q qs c h.1,
)

drop_first-IsBacked :
    (qs : List Ask) (c : Cache) → All (IsBacked qs) c → All (IsBacked qs) (drop_first c)
unfolding drop_first
drop_first-IsBacked qs [] h = h
drop_first-IsBacked qs (x ∷ c) h = h.1

room-IsBacked :
    (qs : List Ask) (b : Bool) (c : Cache)
    → All (IsBacked qs) c
    → All (IsBacked qs) (if b then drop_first c else c)
room-IsBacked qs true c h = drop_first-IsBacked qs c h
room-IsBacked qs false c h = h

learn-IsBacked :
    (q : Ask) (qs : List Ask) (c : Cache) (v : Verdict)
    → verify_dns q.resolver q.provider q.addr ≡ v
    → All (IsBacked qs) c
    → All (IsBacked (q ∷ qs)) (remember q.provider q.addr q.now v c)
unfolding remember cache_store_key is_unverified
learn-IsBacked q qs c indeterminate e h = older-IsBacked q qs c h
learn-IsBacked q qs c verified e h =
    put-IsBacked (q ∷ qs) (cache_store_key q.provider q.addr verified)
      (record { verdict = verified; expires = q.now + dns_cache_ttl })
      (if leb max_cache_entries (length c) then drop_first c else c)
      (record {
        negative = λ n. absurd (ground arith);
        positive = λ n. inl (record {
          provider = refl;
          addr = refl;
          expires = refl;
          confirmed = (verify_dns-verified_iff q.resolver q.provider q.addr).0 e;
        });
      })
      (room-IsBacked (q ∷ qs) (leb max_cache_entries (length c)) c (older-IsBacked q qs c h))
learn-IsBacked q qs c unverified e h =
    put-IsBacked (q ∷ qs) (cache_store_key q.provider q.addr unverified)
      (record { verdict = unverified; expires = q.now + dns_cache_ttl })
      (if leb max_cache_entries (length c) then drop_first c else c)
      (record { negative = λ n. refl; positive = λ n. absurd (ground arith) })
      (room-IsBacked (q ∷ qs) (leb max_cache_entries (length c)) c (older-IsBacked q qs c h))

cache_after-IsBacked : (qs : List Ask) → All (IsBacked qs) (cache_after qs)
unfolding cache_after learn
cache_after-IsBacked [] = tt
cache_after-IsBacked (q ∷ qs) =
    learn-IsBacked q qs (cache_after qs) (verify_dns q.resolver q.provider q.addr) refl
      (cache_after-IsBacked qs)

-- An earlier request for the same provider and address that was confirmed within the time to live.
pub record WasConfirmed (q e : Ask) : Type 0 where
  pub provider : e.provider.id ≡ q.provider.id
  pub addr : e.addr ≡ q.addr
  pub recent : q.now < e.now + dns_cache_ttl
  pub confirmed : IsConfirmed e.resolver e.provider e.addr

-- The key of a confirmation.
abbrev exact : Ask → CacheKey
exact q = record { addr = q.addr; provider = q.provider.id; negative = false }

-- A live entry under the negative key is not a confirmation.
negative_only :
    (q : Ask) (qs : List Ask) (c : Cache)
    → All (IsBacked qs) c
    → (elim (get (cache_store_key q.provider q.addr unverified) c) as (λ x. Option Verdict) [
      | none ↦ none
      | some e ↦ if ltb q.now e.expires then some e.verdict else none
    ])
      ≢ some verified
unfolding cache_store_key is_unverified
negative_only q qs c h r =
    elim (Option-cases (get (cache_store_key q.provider q.addr unverified) c)) [
      | inl e ↦ ground (arith, e)
      | inr (e, f) ↦
          let b =
            (get-IsBacked qs (cache_store_key q.provider q.addr unverified) e c h f).negative
              refl in
          ground (arith, f, b)
    ]

recall-WasConfirmed :
    (q : Ask) (qs : List Ask) (c : Cache)
    → All (IsBacked qs) c
    → recall q.provider q.addr q.now c ≡ some verified
    → Any (WasConfirmed q) qs
unfolding recall
recall-WasConfirmed q qs c h r = elim (Option-cases (get (exact q) c)) [
  | inl none_kept ↦ absurd (negative_only q qs c h (ground (arith, none_kept)))
  | inr (e, f) ↦ elim (Bool-cases (ltb q.now e.expires)) [
    | inr late ↦ absurd (negative_only q qs c h (ground (arith, f, late)))
    | inl live ↦
        Any-map
          (λ p s. record {
            provider = s.provider;
            addr = s.addr;
            recent = ground (arith, s.expires, live);
            confirmed = s.confirmed;
          })
          qs ((get-IsBacked qs (exact q) e c h f).positive refl)
  ]
]

-- A verdict is Verified only if the address lies in a published range of the provider, or reverse DNS
-- confirms it now, or confirmed it for an earlier request less than four hours ago.
pub verify_provider-IsAuthentic :
    (between : Cache → Cache) (q : Ask) (earlier : List Ask)
    → (verify_provider between q (cache_after earlier)).1 ≡ verified
    → (any (λ x. prefix_contains x q.addr) q.provider.prefixes ≡ true)
      ⊎ (IsConfirmed q.resolver q.provider q.addr ⊎ Any (WasConfirmed q) earlier)
unfolding verify_provider
verify_provider-IsAuthentic between q earlier h =
    elim (Bool-cases (any (λ x. prefix_contains x q.addr) q.provider.prefixes)) [
      | inl published ↦ inl published
      | inr unpublished ↦ elim (Bool-cases (q.provider.dns_ipv4_only && not (is_4 q.addr))) [
        | inl refused ↦ absurd (ground (arith, unpublished, refused))
        | inr looked ↦ elim (Option-cases (recall q.provider q.addr q.now (cache_after earlier))) [
          | inr (v, e) ↦ inr (
              inr (
                recall-WasConfirmed q earlier (cache_after earlier) (cache_after-IsBacked earlier)
                  (ground (arith, unpublished, looked, e))))
          | inl e ↦ elim (Bool-cases q.has_slot) [
            | inr busy ↦ absurd (ground (arith, unpublished, looked, e, busy))
            | inl slot ↦ inr (
                inl (
                  (verify_dns-verified_iff q.resolver q.provider q.addr).0
                    (ground (arith, unpublished, looked, e, slot))))
          ]
        ]
      ]
    ]
