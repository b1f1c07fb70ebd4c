-- ===== src/Bypass/Examples.antt =====
-- Tests of the bypass package, and its theorems at concrete requests.
use anteroom.Common.{◌≡◌, refl, inr, true, false, none, some, [], ◌∷◌, any}
use anteroom.Common.Text.{
  Str, text, str_eq, cut, has_prefix, has_suffix, equal_fold, split, trim_space,
}
use anteroom.Net.{NetText, v4, unmap, prefix_contains}
use anteroom.Http.{Request, values}
use anteroom.Bypass.{
  Matcher, match_glob, match_path, contains, walk, client_ip, remote_host, split_xff, split_line,
  check_paths, many_stars,
}
use anteroom.Bypass.Glob.{Matches, match_glob_iff}
use anteroom.Bypass.Forgery.{hops, stops, client_ip_unforgeable}

-- A reading of addresses as single letters: `p` is a proxy, the rest are clients.
abbrev letters : NetText
letters = record {
  parse_addr = λ s. elim s [ [] ↦ none | c ∷ rest ↦ some (v4 c) ];
  parse_prefix = λ s. none;
  show_addr = λ a. [];
  show_prefix = λ p. [];
  split_host_port = λ s. none;
}

abbrev matcher : Matcher
matcher = record {
  paths = text "/.well-known/*" ∷ text "/robots.txt" ∷ [];
  cidrs = [];
  trusted = record { addr = v4 b'p'; bits = 32 } ∷ [];
}

abbrev request : Str → Request
request xff = record {
  method = text "GET";
  host = text "h";
  path = text "/";
  raw_query = [];
  headers = (text "X-Forwarded-For", xff) ∷ [];
  remote_addr = text "p";
  tls = false;
}

nested_path : match_glob (text "/.well-known/*") (text "/.well-known/a/b") ≡ true
unfolding match_glob text cut has_prefix has_suffix
nested_path = refl

robots_only : match_path matcher (text "/robots.txt.bak") ≡ false
unfolding match_path match_glob text cut has_prefix has_suffix str_eq
robots_only = refl

two_stars : check_paths (text "/a*b*" ∷ []) ≡ some many_stars
unfolding check_paths text
two_stars = refl

match_glob_iff_example : Matches (text "/.well-known/*") (text "/.well-known/a/b")
match_glob_iff_example =
    (match_glob_iff (text "/.well-known/*") (text "/.well-known/a/b")).0 nested_path

real_hops : hops letters (request (text " c , p")) ≡ text "c" ∷ text "p" ∷ []
unfolding split_xff split_line values split trim_space equal_fold text
real_hops = refl

forged_hops : hops letters (request (text "x,c, p")) ≡ text "x" ∷ text "c" ∷ text "p" ∷ []
unfolding split_xff split_line values split trim_space equal_fold text
forged_hops = refl

client_behind : any (stops letters matcher.trusted) (hops letters (request (text " c , p"))) ≡ true
unfolding split_xff split_line values split trim_space equal_fold text contains prefix_contains
    unmap
client_behind = refl

client_resolved : client_ip letters matcher (request (text "x,c, p")) ≡ some (v4 b'c')
unfolding client_ip remote_host walk split_xff split_line values split trim_space equal_fold text
    contains prefix_contains unmap
client_resolved = refl

client_ip_unforgeable_example :
    client_ip letters matcher (request (text "x,c, p"))
    ≡ client_ip letters matcher (request (text " c , p"))
client_ip_unforgeable_example =
    client_ip_unforgeable letters matcher (request (text " c , p")) (request (text "x,c, p"))
      (text "x" ∷ []) refl (rw (forged_hops, real_hops)) (inr client_behind)
