-- ===== src/Bypass.antt =====
-- internal/bypass/bypass.go: exempted paths, allowed ranges, and the client's address.
pub mod Glob
pub mod Forgery
pub mod Examples
use mathlib.Core.List.{reverse}
use anteroom.Common.{
  ℕ, ◌+◌, Bool, true, false, ◌&&◌, ◌||◌, not, Option, none, some, List, [], ◌∷◌, ◌++◌, map, any,
  length, ltb, leb, ◌==◌, if◌then◌else◌,
}
use anteroom.Common.Text.{
  Str, text, str_eq, is_empty, cut, split, trim_space, has_prefix, has_suffix, equal_fold,
}
use anteroom.Common.Result.{Result, ok, err, ◌>>=◌, ◌>>◌, guard, or_fail}
use anteroom.Net.{Addr, Prefix, NetText, prefix_contains, unmap, masked, bit_len}
use anteroom.Http.{Request, Headers, values, get, header}

pub record Matcher : Type 0 where
  pub paths : List Str
  pub cidrs : List Prefix
  pub trusted : List Prefix

pub data Error : Type 0 where
  many_stars no_slash bad_cidrs bad_proxies : Error

-- strings.Count of a single byte
unfoldable pub count : ℕ → Str → ℕ
count c [] = 0
count c (d ∷ s) = let rest = count c s in if d == c then rest + 1 else rest

-- The loop over the patterns in New: `none` is no error.
unfoldable pub check_paths : List Str → Option Error
unfolding count has_prefix
check_paths [] = none
check_paths (pat ∷ pats) =
    let rest = check_paths pats in
    if ltb 1 (count b'*' pat)
    then some many_stars
    else if not (has_prefix pat (b'/' ∷ []))
    then some no_slash
    else rest

-- matchGlob
unfoldable pub match_glob : Str → Str → Bool
match_glob pat s = elim (cut b'*' pat) [
  | none ↦ str_eq pat s
  | some (pre, post) ↦
      leb (length pre + length post) (length s) && (has_prefix s pre && has_suffix s post)
]

-- Matcher.Path
unfoldable pub match_path : Matcher → Str → Bool
unfolding any
match_path m path = any (λ pat. match_glob pat path) m.paths

-- contains
unfoldable pub contains : List Prefix → Addr → Bool
unfolding any
contains ps a = any (λ p. prefix_contains p (unmap a)) ps

-- Matcher.IP
unfoldable pub match_ip : Matcher → Addr → Bool
unfolding contains
match_ip m a = contains m.cidrs a

unfoldable pub split_line : List Str → List Str
split_line [] = []
split_line (part ∷ parts) =
    let rest = split_line parts in
    let s : Str = trim_space part in if is_empty s then rest else s ∷ rest

-- splitXFF
unfoldable pub split_xff : List Str → List Str
split_xff [] = []
split_xff (v ∷ vs) = split_line (split b',' v) ++ split_xff vs

module _ (net : NetText) where
  open net use {parse_addr, parse_prefix, split_host_port}

  -- A bare address stands for itself alone.
  unfoldable pub parse_range : Str → Option Prefix
  unfolding bit_len
  parse_range s = elim (parse_prefix s) [
    | some p ↦ some p
    | none ↦ elim (parse_addr s) [
      | none ↦ none
      | some a ↦ some (record { addr = a; bits = bit_len a })
    ]
  ]

  unfoldable pub parse_prefixes : List Str → Option (List Prefix)
  unfolding parse_range masked
  parse_prefixes [] = some []
  parse_prefixes (s ∷ ss) =
      let rest = parse_prefixes ss in
      elim (parse_range s) [
        | none ↦ none
        | some p ↦ elim rest [ none ↦ none | some ps ↦ some (masked p ∷ ps) ]
      ]

  -- New
  unfoldable pub new : List Str → List Str → List Str → Result Error Matcher
  unfolding check_paths parse_prefixes
  new paths cidrs proxies = elim (check_paths paths) [
    | some e ↦ err e
    | none ↦ do
      allowed ← or_fail (parse_prefixes cidrs) bad_cidrs
      trusted ← or_fail (parse_prefixes proxies) bad_proxies
      ok (record { paths = paths; cidrs = allowed; trusted = trusted })
  ]

  -- The host part of RemoteAddr, or all of it where it has no port.
  unfoldable pub remote_host : Request → Str
  remote_host r = elim (split_host_port r.remote_addr) [
    | some (host, port) ↦ host
    | none ↦ r.remote_addr
  ]

  -- TrustedPeer
  unfoldable pub trusted_peer : Matcher → Request → Bool
  trusted_peer m r = elim (parse_addr (remote_host r)) [
    | none ↦ false
    | some a ↦ contains m.trusted a
  ]

  -- The loop of ClientIP over the hops, the last one first.
  unfoldable pub walk : List Prefix → Addr → List Str → Addr
  walk trusted peer [] = peer
  walk trusted peer (hop ∷ hops) =
      let rest = walk trusted peer hops in
      elim (parse_addr hop) [
        | none ↦ peer
        | some a ↦ if not (contains trusted (unmap a)) then unmap a else rest
      ]

  -- ClientIP; `none` is the error.
  unfoldable pub client_ip : Matcher → Request → Option Addr
  client_ip m r = elim (parse_addr (remote_host r)) [
    | none ↦ none
    | some a ↦
        if not (contains m.trusted (unmap a))
        then some (unmap a)
        else some (
            walk m.trusted (unmap a)
              (reverse (split_xff (values (text "X-Forwarded-For") r.headers))))
  ]

-- requestIsTLS of internal/gate/gate.go
unfoldable pub request_is_tls : NetText → Matcher → Request → Bool
request_is_tls net m r =
    r.tls
    || (trusted_peer net m r && equal_fold (header r (text "X-Forwarded-Proto")) (text "https"))
