-- ===== src/Crawler.antt =====
-- internal/crawler/verifier.go: the authentication of search crawlers, by published ranges and by
-- forward-confirmed reverse DNS with a bounded cache.
pub mod Confirming
pub mod Remembering
pub mod Backing
pub mod Examples
use anteroom.Common.{
  ℕ, ◌+◌, ◌*◌, ◌==◌, Bool, true, false, ◌&&◌, ◌||◌, not, Option, none, some, List, [], ◌∷◌, any,
  length, ltb, leb, if◌then◌else◌, Time, Duration, second,
}
use anteroom.Common.Text.{Str, text, is_empty, str_eq, to_lower, trim_suffix, has_suffix}
use anteroom.Common.Result.{Result, ok, err, ◌>>=◌, ◌>>◌, guard, or_fail}
use anteroom.Net.{
  Addr, Prefix, NetText, v4, v6, invalid, is_6, prefix_contains, unmap, masked, addr_eq,
}
use anteroom.UserAgent.{contains_product}

pub data Verdict : Type 0 where
  unverified verified indeterminate : Verdict

-- provider; the document of its ranges is already parsed in `prefixes` when New has returned.
pub record Provider : Type 0 where
  pub id : ℕ
  pub name : Str
  pub ua_products : List Str
  pub prefixes : List Prefix
  pub ptr_suffixes : List Str
  pub dns_ipv4_only : Bool

-- claims
unfoldable pub claims : Provider → Str → Bool
claims p user_agent = any (contains_product user_agent) p.ua_products

-- Claim: the empty name is no claim.
unfoldable pub claim : List Provider → Str → Str
claim [] user_agent = []
claim (p ∷ ps) user_agent =
    let rest = claim ps user_agent in if claims p user_agent then p.name else rest

-- findProvider over the table of providers, with the index of the first one.
unfoldable pub find_provider : ℕ → List Provider → Str → Option Provider
find_provider i [] name = none
find_provider i (p ∷ ps) name =
    let rest = find_provider (i + 1) ps name in
    if str_eq p.name name then some (record p { id = i + 1 }) else rest

pub data Error : Type 0 where
  unsupported malformed no_prefixes not_one_family bad_prefix wrong_family : Error

-- An entry of a document of ranges, and the document as encoding/json reads it.
pub record RangeItem : Type 0 where
  pub ipv4 : Str
  pub ipv6 : Str

unfoldable pub is_4 : Addr → Bool
is_4 invalid = false
is_4 (v4 n) = true
is_4 (v6 n) = false

-- The body of the loop of parsePrefixes.
unfoldable pub parse_item : NetText → RangeItem → Result Error Prefix
parse_item net item = do
  guard (not (if is_empty item.ipv4 then is_empty item.ipv6 else not (is_empty item.ipv6)))
      not_one_family
  prefix ←
      or_fail (net.parse_prefix (if is_empty item.ipv4 then item.ipv6 else item.ipv4)) bad_prefix
  guard (if is_empty item.ipv4 then not (is_4 prefix.addr) else is_4 prefix.addr) wrong_family
  ok (masked prefix)

unfoldable pub parse_items : NetText → List RangeItem → Result Error (List Prefix)
parse_items net [] = ok []
parse_items net (item ∷ items) = do
  prefix ← parse_item net item
  rest ← parse_items net items
  ok (prefix ∷ rest)

-- parsePrefixes, of what encoding/json reads.
unfoldable pub parse_prefixes : NetText → Option (List RangeItem) → Result Error (List Prefix)
parse_prefixes net none = err malformed
parse_prefixes net (some []) = err no_prefixes
parse_prefixes net (some (item ∷ items)) = parse_items net (item ∷ items)

-- The resolver; the addresses of a name are those that netip reads.
pub data DnsError : Type 0 where
  not_found other : DnsError

pub record Resolver : Type 0 where
  pub lookup_addr : Addr → Result DnsError (List Str)
  pub lookup_ip_addr : Str → Result DnsError (List (Option Addr))

-- dnsErrorVerdict
unfoldable pub dns_error_verdict : DnsError → Verdict
dns_error_verdict not_found = unverified
dns_error_verdict other = indeterminate

-- hasDomainSuffix
unfoldable pub has_domain_suffix : Str → List Str → Bool
has_domain_suffix name suffixes = any (has_suffix name) suffixes

unfoldable pub is_addr : Addr → Option Addr → Bool
is_addr a none = false
is_addr a (some got) = addr_eq (unmap got) a

abbrev pub canonical_name : Str → Str
canonical_name raw = trim_suffix b'.' (to_lower raw)

-- The loop of verifyDNS over the names, with its flag.
unfoldable pub confirm : Resolver → Provider → Addr → Bool → List Str → Verdict
confirm d p a doubt [] = if doubt then indeterminate else unverified
confirm d p a doubt (raw ∷ raws) =
    let later = confirm d p a doubt raws in
    let doubted = confirm d p a true raws in
    if not (has_domain_suffix (canonical_name raw) p.ptr_suffixes)
    then later
    else elim (d.lookup_ip_addr (canonical_name raw)) [
      | err other ↦ doubted
      | err not_found ↦ later
      | ok addrs ↦ if any (is_addr a) addrs then verified else later
    ]

-- verifyDNS
unfoldable pub verify_dns : Resolver → Provider → Addr → Verdict
verify_dns d p a = elim (d.lookup_addr a) [
  | err e ↦ dns_error_verdict e
  | ok names ↦ confirm d p a false names
]

pub record CacheKey : Type 0 where
  pub addr : Addr
  pub provider : ℕ
  pub negative : Bool

pub record CacheEntry : Type 0 where
  pub expires : Time
  pub verdict : Verdict

abbrev pub Cache : Type 0
Cache = List (CacheKey × CacheEntry)

abbrev pub max_cache_entries : ℕ
max_cache_entries = 8192

abbrev pub dns_cache_ttl : Duration
dns_cache_ttl = 14400 * second

unfoldable pub same_bool : Bool → Bool → Bool
same_bool true b = b
same_bool false b = not b

unfoldable pub key_eq : CacheKey → CacheKey → Bool
key_eq k j = addr_eq k.addr j.addr && (k.provider == j.provider && same_bool k.negative j.negative)

unfoldable pub get : CacheKey → Cache → Option CacheEntry
get k [] = none
get k ((j, e) ∷ c) = let rest = get k c in if key_eq j k then some e else rest

unfoldable pub put : CacheKey → CacheEntry → Cache → Cache
put k e [] = (k, e) ∷ []
put k e ((j, f) ∷ c) = let rest = put k e c in if key_eq j k then (j, e) ∷ c else (j, f) ∷ rest

unfoldable pub is_unverified : Verdict → Bool
is_unverified unverified = true
is_unverified verified = false
is_unverified indeterminate = false

-- cacheStoreKey
unfoldable pub cache_store_key : Provider → Addr → Verdict → CacheKey
cache_store_key p a v = record {
  addr = if is_unverified v && is_6 a then (masked (record { addr = a; bits = 64 })).addr else a;
  provider = p.id;
  negative = is_unverified v;
}

-- The loop over cacheLookupKeys.
unfoldable pub recall : Provider → Addr → Time → Cache → Option Verdict
recall p a now c =
    let live : CacheKey → Option Verdict = λ k. elim (get k c) [
      | none ↦ none
      | some e ↦ if ltb now e.expires then some e.verdict else none
    ] in
    elim (live (record { addr = a; provider = p.id; negative = false })) [
      | some v ↦ some v
      | none ↦ live (cache_store_key p a unverified)
    ]

unfoldable pub drop_first : Cache → Cache
drop_first [] = []
drop_first (x ∷ c) = c

-- What is kept of a verdict; the entry that a full cache gives up is the one that a range loop meets
-- first.
unfoldable pub remember : Provider → Addr → Time → Verdict → Cache → Cache
remember p a now indeterminate c = c
remember p a now v c =
    let entry : CacheEntry = record { verdict = v; expires = now + dns_cache_ttl } in
    put (cache_store_key p a v) entry (if leb max_cache_entries (length c) then drop_first c else c)

-- A request for a verdict: the clock when it comes, whether it gets one of the slots for DNS in time,
-- and the answers of the resolver.
pub record Ask : Type 0 where
  pub provider : Provider
  pub addr : Addr
  pub now : Time
  pub has_slot : Bool
  pub resolver : Resolver

-- What the request leaves in the cache once the resolver has answered.
unfoldable pub learn : Ask → Cache → Cache
learn q c = remember q.provider q.addr q.now (verify_dns q.resolver q.provider q.addr) c

-- verifyProvider: `between` is what other requests do to the cache during the DNS lookups.
unfoldable pub verify_provider : (Cache → Cache) → Ask → Cache → Cache × Verdict
verify_provider between q c =
    if any (λ x. prefix_contains x q.addr) q.provider.prefixes
    then (c, verified)
    else if q.provider.dns_ipv4_only && not (is_4 q.addr)
    then (c, unverified)
    else elim (recall q.provider q.addr q.now c) [
      | some v ↦ (c, v)
      | none ↦
          if not q.has_slot
          then (between c, indeterminate)
          else (learn q (between c), verify_dns q.resolver q.provider q.addr)
    ]

-- Verify
unfoldable pub verify : List Provider → (Cache → Cache) → Str → Ask → Cache → Cache × Verdict
verify [] between name q c = (c, unverified)
verify (p ∷ ps) between name q c =
    let rest = verify ps between name q c in
    if str_eq p.name name
    then verify_provider between (record q { provider = p; addr = unmap q.addr }) c
    else rest
