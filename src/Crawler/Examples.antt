-- ===== src/Crawler/Examples.antt =====
-- A crawler that is confirmed once, and answered from the cache an hour later.
use anteroom.Common.{
  ◌*◌, ◌≤◌, ◌≡◌, refl, ◌≢◌, ◌↔◌, ◌⊎◌, true, false, none, some, [], ◌∷◌, any, length, arith, second,
  Any, All,
}
use anteroom.Common.Text.{text, str_eq, trim_suffix, to_lower, has_suffix, has_prefix}
use anteroom.Common.Result.{ok}
use anteroom.Net.{v4, prefix_contains, unmap, addr_eq}
use anteroom.UserAgent.{is_separator, starts, scan, contains_product}
use anteroom.UserAgent.Tokens.{Occurs, contains_product_iff}
use anteroom.Crawler.{
  verified, Provider, Resolver, has_domain_suffix, is_addr, confirm, verify_dns, Cache, key_eq, get,
  put, is_unverified, cache_store_key, recall, remember, drop_first, max_cache_entries, Ask, learn,
  verify_provider, same_bool, is_4,
}
use anteroom.Crawler.Confirming.{IsConfirmed}
use anteroom.Crawler.Remembering.{cache_after, cache_after-IsBounded}
use anteroom.Crawler.Backing.{WasConfirmed, verify_provider-IsAuthentic}

abbrev bot : Provider
bot = record {
  id = 1;
  name = text "googlebot";
  ua_products = text "Googlebot/" ∷ [];
  prefixes = [];
  ptr_suffixes = text ".googlebot.com" ∷ [];
  dns_ipv4_only = false;
}

abbrev resolver : Resolver
resolver = record {
  lookup_addr = λ a. ok (text "x.example." ∷ text "Crawl-1.GoogleBot.com." ∷ []);
  lookup_ip_addr = λ name. ok (none ∷ some (v4 7) ∷ []);
}

abbrev first : Ask
first = record { provider = bot; addr = v4 7; now = 0; has_slot = true; resolver = resolver }

-- The resolver is down.
abbrev second_ask : Ask
second_ask = record first { now = 3600 * second; has_slot = false }

abbrev others : Cache → Cache
others c = c

confirms : verify_dns resolver bot (v4 7) ≡ verified
unfolding verify_dns confirm has_domain_suffix is_addr any to_lower trim_suffix has_suffix
    has_prefix text str_eq unmap addr_eq
confirms = refl

cache_after-IsBounded_example : length (cache_after (first ∷ first ∷ [])) ≤ max_cache_entries
cache_after-IsBounded_example = cache_after-IsBounded (first ∷ first ∷ [])

answers_from_cache : (verify_provider others second_ask (cache_after (first ∷ []))).1 ≡ verified
unfolding verify_provider cache_after learn remember recall cache_store_key is_unverified get put
    key_eq same_bool is_4 drop_first verify_dns confirm has_domain_suffix is_addr any to_lower
    trim_suffix has_suffix has_prefix text str_eq unmap addr_eq prefix_contains
answers_from_cache = refl

verify_provider-IsAuthentic_example :
    (any (λ x. prefix_contains x (v4 7)) [] ≡ true)
    ⊎ (IsConfirmed resolver bot (v4 7) ⊎ Any (WasConfirmed second_ask) (first ∷ []))
verify_provider-IsAuthentic_example =
    verify_provider-IsAuthentic others second_ask (first ∷ []) answers_from_cache

bot_token : (text "Googlebot/" ≢ []) × All (λ c. is_separator c ≡ false) (text "Googlebot/")
unfolding text is_separator
bot_token = (
  λ e. ground arith,
  (refl, (refl, (refl, (refl, (refl, (refl, (refl, (refl, (refl, (refl, tt)))))))))),
)

contains_product_iff_example :
    (contains_product (text "NotGooglebot/1 Googlebot/2") (text "Googlebot/") ≡ true)
    ↔ Occurs (text "Googlebot/") none (text "NotGooglebot/1 Googlebot/2")
contains_product_iff_example =
    contains_product_iff (text "NotGooglebot/1 Googlebot/2") (text "Googlebot/") bot_token

finds_second : contains_product (text "NotGooglebot/1 Googlebot/2") (text "Googlebot/") ≡ true
unfolding contains_product scan starts is_separator has_prefix text
finds_second = refl
