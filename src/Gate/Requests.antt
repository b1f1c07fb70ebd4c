-- ===== src/Gate/Requests.antt =====
-- internal/gate/request.go: what a request is taken for, by its headers.
pub mod Navigation
pub mod Examples
use anteroom.Common.{
  ℕ, ◌+◌, Bool, true, false, ◌&&◌, ◌||◌, not, Option, none, some, List, [], ◌∷◌, ltb, if◌then◌else◌,
}
use anteroom.Common.Text.{
  Str, text, is_empty, str_eq, equal_fold, contains, cut, split, to_lower, trim_space,
}
use anteroom.Http.{Request, header}

-- The float64 of a quality value, as strconv.ParseFloat reads it: NaN and the infinities are among
-- them, so that the order is a parameter too.
pub record Floats (Q : Type 0) : Type 0 where
  pub parse_float : Str → Option Q
  pub nil : Q
  pub one : Q
  pub more : Q → Q → Bool
  pub same : Q → Q → Bool

-- mediaPreference, of an offer that was made.
pub record MediaPreference (Q : Type 0) : Type 0 where
  pub q : Q
  pub order : ℕ

pub record AcceptPreferences (Q : Type 0) : Type 0 where
  pub html : Option (MediaPreference Q)
  pub markdown : Option (MediaPreference Q)

module _ {Q : Type 0} (f : Floats Q) where
  -- The loop over the parameters of a media range.
  unfoldable pub quality : Q → List Str → Q
  quality q [] = q
  quality q (param ∷ params) =
      let skip = quality q params in
      elim (cut b'=' (trim_space param)) [
        | none ↦ skip
        | some (key, raw) ↦
            if not (equal_fold (trim_space key) (text "q"))
            then skip
            else elim (f.parse_float (trim_space raw)) [
              | none ↦ skip
              | some parsed ↦ quality parsed params
            ]
      ]

  -- The media range of a part of the header and its quality.
  unfoldable pub read_part : Str → Str × Q
  read_part part = elim (cut b';' (trim_space part)) [
    | none ↦ (to_lower (trim_space (trim_space part)), quality f.one ([] ∷ []))
    | some (media, params) ↦ (to_lower (trim_space media), quality f.one (split b';' params))
  ]

  -- The assignment to the preference of a media range.
  unfoldable pub offer : Q → ℕ → Option (MediaPreference Q) → Option (MediaPreference Q)
  offer q i none = some (record { q = q; order = i })
  offer q i (some m) = if f.more q m.q then some (record { q = q; order = i }) else some m

  -- The body of the loop of parseAccept.
  unfoldable pub note_part : ℕ → Str → AcceptPreferences Q → AcceptPreferences Q
  note_part i part a =
      let (media, q) = read_part part in
      if str_eq media (text "text/html")
      then record a { html = offer q i a.html }
      else if str_eq media (text "text/markdown")
      then record a { markdown = offer q i a.markdown }
      else a

  unfoldable pub note_parts : ℕ → List Str → AcceptPreferences Q → AcceptPreferences Q
  note_parts i [] a = a
  note_parts i (part ∷ parts) a = note_parts (i + 1) parts (note_part i part a)

  -- parseAccept
  unfoldable pub parse_accept : Str → AcceptPreferences Q
  parse_accept value = note_parts 0 (split b',' value) (record { html = none; markdown = none })

  abbrev pub is_wanted : Option (MediaPreference Q) → Bool
  is_wanted none = false
  is_wanted (some m) = f.more m.q f.nil

  -- offersHTML
  unfoldable pub offers_html : AcceptPreferences Q → Bool
  offers_html a = is_wanted a.html

  -- prefersMarkdown
  unfoldable pub prefers_markdown : AcceptPreferences Q → Bool
  prefers_markdown a = elim a.markdown [
    | none ↦ false
    | some m ↦ if not (f.more m.q f.nil) then false else elim a.html [
      | none ↦ true
      | some h ↦
          if not (f.more h.q f.nil)
          then true
          else if not (f.same m.q h.q)
          then f.more m.q h.q
          else ltb m.order h.order
    ]
  ]

-- isFragmentRequest
unfoldable pub is_fragment_request : Request → Bool
is_fragment_request r =
    if not (is_empty (header r (text "HX-Request")))
      || (not (is_empty (header r (text "Turbo-Frame")))
          || not (is_empty (header r (text "Turbo-Request-ID"))))
    then true
    else equal_fold (trim_space (header r (text "X-Requested-With"))) (text "XMLHttpRequest")

unfoldable pub is_document : Str → Bool
is_document dest = is_empty dest || (str_eq dest (text "document") || str_eq dest (text "empty"))

unfoldable pub is_quiet_mode : Str → Bool
is_quiet_mode mode = is_empty mode || str_eq mode (text "same-origin")

-- classifyNavigation, of a request that claims the crawler `claim`.
unfoldable pub classify_navigation :
    {Q : Type 0} → Floats Q → Request → Str → AcceptPreferences Q → Bool → Bool
classify_navigation f r claim accept fragment =
    if not (str_eq r.method (text "GET")) && not (str_eq r.method (text "HEAD"))
    then false
    else if not (is_empty claim) || (fragment || prefers_markdown f accept)
    then false
    else if not (is_document (header r (text "Sec-Fetch-Dest")))
    then false
    else if str_eq (header r (text "Sec-Fetch-Mode")) (text "navigate")
    then true
    else if is_quiet_mode (header r (text "Sec-Fetch-Mode"))
    then offers_html f accept && contains (header r (text "User-Agent")) (text "Mozilla")
    else false

-- The navigation of inspectRequest.
unfoldable pub is_navigation : {Q : Type 0} → Floats Q → Request → Str → Bool
is_navigation f r claim =
    classify_navigation f r claim (parse_accept f (header r (text "Accept")))
      (is_fragment_request r)
