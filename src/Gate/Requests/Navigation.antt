-- ===== src/Gate/Requests/Navigation.antt =====
-- Who gets the wait page.
use anteroom.Common.{◌≡◌, ◌≢◌, ◌⊎◌, ◌<◌, Option, some, true, false, [], arith}
use anteroom.Common.Text.{Str, text, contains, equal_fold, trim_space}
use anteroom.Http.{Request, header}
use anteroom.Gate.Requests.{Floats, MediaPreference, AcceptPreferences, parse_accept}

-- A media range that is named with a quality above 0.
abbrev pub Wants : {Q : Type 0} → Floats Q → Option (MediaPreference Q) → Type 0
Wants {Q} f m = (p : MediaPreference Q) × (m ≡ some p) × (f.more p.q f.nil ≡ true)

-- Markdown is wanted, and HTML is not, or has a lower quality, or has the same and is named later.
abbrev pub WantsMarkdown : {Q : Type 0} → Floats Q → AcceptPreferences Q → Type 0
WantsMarkdown {Q} f a =
    (m : MediaPreference Q) × (a.markdown ≡ some m)
    × (f.more m.q f.nil ≡ true)
    × ((h : MediaPreference Q)
        → a.html ≡ some h
        → f.more h.q f.nil ≡ true
        → ((f.same m.q h.q ≡ false) × (f.more m.q h.q ≡ true))
          ⊎ ((f.same m.q h.q ≡ true) × (m.order < h.order)))

-- A navigation of a browser: it reads, names no crawler, is no fragment and does not prefer Markdown;
-- its destination is a document, and it says that it navigates, or says nothing against it and is
-- a browser that takes HTML.
pub record IsNavigation {Q : Type 0} (f : Floats Q) (r : Request) (claim : Str) : Type 0 where
  pub reads : (r.method ≡ text "GET") ⊎ (r.method ≡ text "HEAD")
  pub unclaimed : claim ≡ []
  pub htmx : header r (text "HX-Request") ≡ []
  pub turbo_frame : header r (text "Turbo-Frame") ≡ []
  pub turbo_request : header r (text "Turbo-Request-ID") ≡ []
  pub no_script :
      equal_fold (trim_space (header r (text "X-Requested-With"))) (text "XMLHttpRequest") ≡ false
  pub no_markdown : ¬ WantsMarkdown f (parse_accept f (header r (text "Accept")))
  pub document :
      (header r (text "Sec-Fetch-Dest") ≡ [])
      ⊎ ((header r (text "Sec-Fetch-Dest") ≡ text "document")
          ⊎ (header r (text "Sec-Fetch-Dest") ≡ text "empty"))
  pub navigates :
      (header r (text "Sec-Fetch-Mode") ≡ text "navigate")
      ⊎ (((header r (text "Sec-Fetch-Mode") ≡ [])
            ⊎ (header r (text "Sec-Fetch-Mode") ≡ text "same-origin"))
          × Wants f (parse_accept f (header r (text "Accept"))).html
          × (contains (header r (text "User-Agent")) (text "Mozilla") ≡ true))

names_apart : (text "navigate" ≢ []) × (text "navigate" ≢ text "same-origin")
unfolding text
names_apart = (λ e. ground arith, λ e. ground arith)
