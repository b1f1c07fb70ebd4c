-- ===== src/Gate/Requests/Examples.antt =====
-- A browser's navigation, and a program that prefers Markdown.
use anteroom.Common.{
  ℕ, ◌+◌, ◌-◌, ◌*◌, ◌≡◌, refl, Option, none, some, [], ◌∷◌, ltb, ◌==◌, true, false,
}
use anteroom.Common.Text.{
  Str, text, str_eq, equal_fold, contains, cut, split, to_lower, trim_space, trim_left, has_prefix,
}
use anteroom.Http.{Request, get}
use anteroom.Gate.Requests.{
  Floats, quality, read_part, offer, note_part, note_parts, parse_accept, offers_html,
  prefers_markdown, is_fragment_request, is_document, is_quiet_mode, classify_navigation,
  is_navigation,
}

abbrev read_tenths : Str → Option ℕ
read_tenths [] = none
read_tenths (c ∷ []) = some (10 * (c - b'0'))
read_tenths (c ∷ p ∷ []) = none
read_tenths (c ∷ p ∷ d ∷ s) = some (10 * (c - b'0') + (d - b'0'))

-- Tenths, as far as the tests write them.
abbrev tenths : Floats ℕ
tenths = record {
  parse_float = λ s. read_tenths s;
  nil = 0;
  one = 10;
  more = λ a b. ltb b a;
  same = λ a b. a == b;
}

abbrev browser : Request
browser = record {
  method = text "GET";
  host = text "h";
  path = text "/";
  raw_query = [];
  headers =
      (text "Accept", text "text/html,*/*;q=0.8")
      ∷ (text "User-Agent", text "Mozilla/5.0")
      ∷ (text "Sec-Fetch-Mode", text "same-origin")
      ∷ [];
  remote_addr = text "a";
  tls = true;
}

abbrev agent : Request
agent = record browser {
  headers =
      (text "Accept", text "text/html;q=0.5, text/markdown")
      ∷ (text "User-Agent", text "Mozilla/5.0")
      ∷ [];
}

navigates : is_navigation tenths browser [] ≡ true
unfolding is_navigation classify_navigation is_document is_quiet_mode is_fragment_request
    prefers_markdown offers_html parse_accept note_parts note_part offer read_part quality get
    equal_fold to_lower str_eq contains has_prefix cut split trim_space trim_left text
navigates = refl

declines : is_navigation tenths agent [] ≡ false
unfolding is_navigation classify_navigation is_document is_quiet_mode is_fragment_request
    prefers_markdown offers_html parse_accept note_parts note_part offer read_part quality get
    equal_fold to_lower str_eq contains has_prefix cut split trim_space trim_left text
declines = refl
