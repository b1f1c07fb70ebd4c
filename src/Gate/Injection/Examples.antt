-- ===== src/Gate/Injection/Examples.antt =====
-- A document that comes in two writes, and a body that is not UTF-8.
use anteroom.Common.{
  arith, suc, ◌≡◌, refl, ap, none, some, any, List, [], ◌∷◌, ◌++◌, take, length, leb, if◌then◌else◌,
}
use anteroom.Common.Text.{Str, text, to_lower, has_prefix, str_eq, equal_fold, trim_left}
use anteroom.Common.Map.{lookup}
use anteroom.Http.{Headers, get}
use anteroom.Gate.Writer.{is_informational}
use anteroom.Gate.Injection.Document.{
  at, panics, index, last_index, in_comment, goes_on, is_tag_name_end, find_point, insertion_point,
  looks_like_document, may_start, trim_bom, utf16_or_32_bom, head_end,
}
use anteroom.Gate.Injection.Placing.{IsAscii, IsPlaced, insertion_point-IsPlaced}
use anteroom.Gate.Injection.{
  Plan, Script, Emit, Injector, new_injector, runs, crashes, is_ascii_charset, charset_of,
  is_skipped, decide, write_header, write_body, prepend, write, finish, Use, heads, writes, respond,
}
use anteroom.Gate.Injection.Settling.{sent_bytes, body_of, Kept}
use anteroom.Gate.Injection.Returning.{respond-Kept, response_ends}

length-to_lower : (s : Str) → length (to_lower s) ≡ length s
unfolding to_lower
length-to_lower [] = refl
length-to_lower (c ∷ s) = ap suc (length-to_lower s)

abbrev document : Str
document = text "<!-- <head> --><html><head><title>x</title></head>"

abbrev plan : Plan
plan = record {
  enforce = none;
  report = none;
  nonce = [];
  tag = text "<script src=\"/r\" defer></script>";
}

abbrev script : Script
script = record {
  lower = to_lower;
  parse_media_type = λ v. some (v, []);
  plan = λ csp report doc. some plan;
}

abbrev headers : Headers
headers = (text "Content-Type", text "text/html") ∷ (text "ETag", text "\"e\"") ∷ []

abbrev uses : List Use
uses = heads 200 ∷ writes (take 20 document) ∷ writes (text "-") ∷ []

keeps : (t : Str) → IsAscii t → length (to_lower t) ≡ length t
keeps t ascii = length-to_lower t

document-IsAscii : IsAscii document
unfolding text
document-IsAscii = omega arith

insertion_point-IsPlaced_example : IsPlaced document (insertion_point to_lower document)
insertion_point-IsPlaced_example = insertion_point-IsPlaced to_lower keeps document document-IsAscii

place_of_document : insertion_point to_lower document ≡ at 27
unfolding insertion_point find_point index last_index in_comment goes_on is_tag_name_end text
    has_prefix to_lower
place_of_document = refl

body_of-IsAscii : IsAscii (body_of uses)
unfolding body_of text
body_of-IsAscii = omega arith

response_ends_example :
    (j : Injector) × (es : List Emit) × (respond script (new_injector headers) uses ≡ runs j es)
    × Kept script (body_of uses) (sent_bytes es)
response_ends_example = response_ends script headers uses keeps body_of-IsAscii

ended :
    (j : Injector) × (es : List Emit) × (respond script (new_injector headers) uses ≡ runs j es)
    × Kept script (body_of uses) (sent_bytes es)
ended = response_ends script headers uses keeps body_of-IsAscii

respond-Kept_example : Kept script (body_of uses) (sent_bytes ended.1)
respond-Kept_example = respond-Kept script headers uses ended.0 ended.1 ended.2

-- bytes.ToLower on bytes that are no UTF-8: each becomes the three bytes of U+FFFD.
abbrev lower_utf8 : Str → Str
lower_utf8 [] = []
lower_utf8 (c ∷ s) =
    if leb 128 c then 0xEF ∷ 0xBF ∷ 0xBD ∷ lower_utf8 s else to_lower (c ∷ []) ++ lower_utf8 s

abbrev latin : Str
latin = text "<html><!--" ++ (0xE9 ∷ 0xE9 ∷ 0xE9 ∷ 0xE9 ∷ [])

-- Four bytes in ISO 8859-1 before the head: the place is inside the title.
misplaced : insertion_point lower_utf8 (latin ++ text "--><head><title> x</title>") ≡ at 30
unfolding insertion_point find_point index last_index in_comment goes_on is_tag_name_end text
    has_prefix to_lower
misplaced = refl

-- With nothing behind the head, the place is out of range, and the program panics.
crashed : insertion_point lower_utf8 (latin ++ text "--><head>") ≡ panics
unfolding insertion_point find_point index last_index in_comment goes_on is_tag_name_end text
    has_prefix to_lower
crashed = refl

crashed_response :
    respond
      (record script { lower = lower_utf8 })
      (new_injector headers)
      (writes (latin ++ text "--><head>") ∷ [])
    ≡ crashes
unfolding respond write prepend write_body write_header finish decide is_informational is_skipped
    any get equal_fold is_ascii_charset charset_of looks_like_document may_start trim_bom trim_left
    utf16_or_32_bom head_end insertion_point find_point index last_index in_comment goes_on
    is_tag_name_end text has_prefix str_eq to_lower lookup
crashed_response = refl
