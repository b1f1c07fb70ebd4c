-- ===== src/Gate/Writer/Examples.antt =====
-- A paid response behind an informational one.
use anteroom.Common.{◌≡◌, refl, true, false, some, List, [], ◌∷◌, any, All}
use anteroom.Common.Text.{Str, text, str_eq, cut, trim_space, trim_left, equal_fold, to_lower}
use anteroom.Http.{Headers, values, del, add, set}
use anteroom.Gate.Ladder.{add_all}
use anteroom.Gate.Writer.{
  PaidWriter, seal, is_pass_cookie, hold_values, hold_pass_cookies, is_informational, write_header,
  write, flush_through, Use, flushes, changes, heads, writes, respond,
}
use anteroom.Gate.Writer.HeaderLines.{set_cookies, IsSealed}
use anteroom.Gate.Writer.Sealing.{
  first_final, is_opened, IsClean, respond-IsSealed, pass_outlives_information,
}

abbrev pass : Str
pass = text "anteroom_pass=p"

abbrev writer : PaidWriter
writer = record {
  headers =
      (text "Set-Cookie", pass)
      ∷ (text "Set-Cookie", text "a=b")
      ∷ (text "Payment-Required", text "o")
      ∷ [];
  settle = text "r";
  sealed = false;
  pass_cookies = [];
}

-- The proxy clears the headers behind the informational response, and copies those of the upstream.
abbrev uses : List Use
uses =
    changes (λ h. (text "Cache-Control", text "public") ∷ (text "PAYMENT-RESPONSE", text "x") ∷ [])
    ∷ writes (text "page")
    ∷ []

abbrev final : Headers
final =
    (text "Set-Cookie", pass)
    ∷ (text "Cache-Control", text "no-store, private")
    ∷ (text "Pragma", text "no-cache")
    ∷ (text "PAYMENT-RESPONSE", text "r")
    ∷ []

runs : first_final (respond writer (heads 103 ∷ uses)) ≡ some final
unfolding first_final respond write_header write is_informational hold_pass_cookies hold_values
    is_pass_cookie seal add_all values del add set equal_fold to_lower str_eq cut trim_space
    trim_left text
runs = refl

has_pass : any (str_eq pass) (set_cookies writer.headers) ≡ true
unfolding any values equal_fold to_lower str_eq text
has_pass = refl

names_pass : is_pass_cookie pass ≡ true
unfolding is_pass_cookie cut trim_space trim_left str_eq text
names_pass = refl

early : is_informational 103 ≡ true
unfolding is_informational
early = refl

opens : is_opened (heads 103 ∷ uses) ≡ true
unfolding is_opened is_informational
opens = refl

opens_rest : is_opened uses ≡ true
unfolding is_opened
opens_rest = refl

-- A flush in front of the header sends what the headers hold, unsealed.
unsealed :
    first_final (respond writer (flushes ∷ heads 200 ∷ []))
    ≡ some (
        (text "Set-Cookie", pass)
        ∷ (text "Set-Cookie", text "a=b")
        ∷ (text "Payment-Required", text "o")
        ∷ [])
unfolding first_final respond flush_through write_header is_informational
unsealed = refl

respond-IsSealed_example :
    All IsClean (respond writer (heads 103 ∷ uses))
    × ((h : Headers)
        → first_final (respond writer (heads 103 ∷ uses)) ≡ some h
        → IsSealed (text "r") h)
respond-IsSealed_example = respond-IsSealed writer (heads 103 ∷ uses) opens refl

pass_outlives_information_example :
    (any is_pass_cookie (set_cookies (write_header 103 writer).0.headers) ≡ false)
    × (any (str_eq pass) (set_cookies final) ≡ true)
pass_outlives_information_example =
    pass_outlives_information writer uses 103 pass final opens_rest refl early has_pass names_pass
      runs
