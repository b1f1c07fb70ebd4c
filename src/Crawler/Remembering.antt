-- ===== src/Crawler/Remembering.antt =====
-- The cache of verdicts: it stays bounded, and a verdict that it answers was confirmed within its time
-- to live.
use anteroom.Common.{◌+◌, ◌≤◌, ◌≡◌, refl, ◌⊎◌, inl, inr, List, [], ◌∷◌, length, arith, Time}
use anteroom.Net.{Addr}
use anteroom.Crawler.{
  Verdict, unverified, verified, indeterminate, Provider, verify_dns, CacheKey, CacheEntry, Cache,
  max_cache_entries, dns_cache_ttl, put, cache_store_key, drop_first, remember, Ask, learn,
}

length-put-le : (k : CacheKey) (e : CacheEntry) (c : Cache) → length (put k e c) ≤ length c + 1
unfolding put
length-put-le k e [] = omega arith
length-put-le k e ((j, f) ∷ c) = ground (arith, length-put-le k e c)

Verdict-cases : (v : Verdict) → (v ≡ unverified) ⊎ ((v ≡ verified) ⊎ (v ≡ indeterminate))
Verdict-cases unverified = inl refl
Verdict-cases verified = inr (inl refl)
Verdict-cases indeterminate = inr (inr refl)

remember-IsBounded :
    (p : Provider) (a : Addr) (now : Time) (v : Verdict) (c : Cache)
    → length c ≤ max_cache_entries
    → length (remember p a now v c) ≤ max_cache_entries
unfolding remember drop_first
remember-IsBounded p a now indeterminate c h = h
remember-IsBounded p a now unverified [] h = ground (
  arith,
  length-put-le (cache_store_key p a unverified)
      (record { verdict = unverified; expires = now + dns_cache_ttl }) [],
)
remember-IsBounded p a now unverified (x ∷ c) h = ground (
  arith,
  length-put-le (cache_store_key p a unverified)
      (record { verdict = unverified; expires = now + dns_cache_ttl }) c,
  length-put-le (cache_store_key p a unverified)
      (record { verdict = unverified; expires = now + dns_cache_ttl }) (x ∷ c),
)
remember-IsBounded p a now verified [] h = ground (
  arith,
  length-put-le (cache_store_key p a verified)
      (record { verdict = verified; expires = now + dns_cache_ttl }) [],
)
remember-IsBounded p a now verified (x ∷ c) h = ground (
  arith,
  length-put-le (cache_store_key p a verified)
      (record { verdict = verified; expires = now + dns_cache_ttl }) c,
  length-put-le (cache_store_key p a verified)
      (record { verdict = verified; expires = now + dns_cache_ttl }) (x ∷ c),
)

-- The cache when requests have stored their verdicts, the latest first. A request looks at the cache
-- and stores its verdict in two steps, so that the stores of any number of requests come in any order.
unfoldable pub cache_after : List Ask → Cache
cache_after [] = []
cache_after (q ∷ earlier) = learn q (cache_after earlier)

-- Whatever is asked and whatever the resolvers answer, the cache never has more than 8192 entries.
pub cache_after-IsBounded : (qs : List Ask) → length (cache_after qs) ≤ max_cache_entries
unfolding cache_after learn
cache_after-IsBounded [] = omega arith
cache_after-IsBounded (q ∷ qs) =
    remember-IsBounded q.provider q.addr q.now (verify_dns q.resolver q.provider q.addr)
      (cache_after qs) (cache_after-IsBounded qs)
