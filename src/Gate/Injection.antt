-- ===== src/Gate/Injection.antt =====
-- internal/gate/injector.go: the response writer that puts the renewal script into a document.
pub mod Document
pub mod Placing
pub mod Settling
pub mod Holding
pub mod Transparent
pub mod Returning
pub mod Examples
use anteroom.Common.{
  ℕ, ◌+◌, ◌==◌, Bool, true, false, ◌&&◌, ◌||◌, not, Option, none, some, List, [], ◌∷◌, ◌++◌, any,
  take, drop, length, ltb, leb, if◌then◌else◌,
}
use anteroom.Common.Text.{
  Str, text, is_empty, str_eq, equal_fold, to_lower, has_prefix, split, trim_space,
}
use anteroom.Common.Map.{Map, lookup}
use anteroom.Http.{Headers, get, values, del, add, set}
use anteroom.Gate.Ladder.{add_all}
use anteroom.Gate.Writer.{is_informational}
use anteroom.Gate.Injection.Document.{
  Lower, Point, at, nowhere, panics, spins, looks_like_document, head_end, insertion_point,
}

-- cspPlan of a plan that injects: the values of the two headers when they change, and the tag.
pub record Plan : Type 0 where
  pub enforce : Option (List Str)
  pub report : Option (List Str)
  pub nonce : Str
  pub tag : Str

-- bytes.ToLower, mime.ParseMediaType, and planCSP with metaPolicies: `none` is modeSkip.
pub record Script : Type 0 where
  pub lower : Lower
  pub parse_media_type : Str → Option (Str × Map Str)
  pub plan : List Str → List Str → Str → Option Plan

abbrev pub head_budget : ℕ
head_budget = 65536

unfoldable pub is_ascii_charset : Str → Bool
is_ascii_charset cs = any (str_eq cs) (
    []
    ∷ text "utf-8"
    ∷ text "utf8"
    ∷ text "us-ascii"
    ∷ text "ascii"
    ∷ text "iso-8859-1"
    ∷ text "latin1"
    ∷ text "windows-1252"
    ∷ text "iso-8859-15"
    ∷ [])

-- The charset of the parameters of a media type; a Go map answers an unknown key with "".
unfoldable pub charset_of : Map Str → Str
charset_of params = elim (lookup (text "charset") params) [ none ↦ [] | some cs ↦ cs ]

-- responseSkipReason, of which only the presence of a reason matters here.
unfoldable pub is_skipped : Script → ℕ → Headers → Bool
is_skipped s status h =
    not (status == 200)
    || (any (λ k. not (is_empty (get k h)))
          (text "Content-Digest" ∷ text "Repr-Digest" ∷ text "Digest" ∷ text "Signature" ∷ [])
        || ((not (is_empty (get (text "Content-Encoding") h))
              && not (equal_fold (get (text "Content-Encoding") h) (text "identity")))
            || elim (s.parse_media_type (get (text "Content-Type") h)) [
              | none ↦ true
              | some (ct, params) ↦
                  not (str_eq ct (text "text/html"))
                  || not (is_ascii_charset (to_lower (charset_of params)))
            ]))

-- addVary
unfoldable pub add_vary : Str → Headers → Headers
add_vary field h =
    if any
      (λ v.
        any (λ f. equal_fold (trim_space f) field || str_eq (trim_space f) (text "*"))
          (split b',' v))
      (values (text "Vary") h)
    then h
    else add (text "Vary") field h

unfoldable pub replace_values : Str → Option (List Str) → Headers → Headers
replace_values name none h = h
replace_values name (some vs) h = add_all name vs (del name h)

-- The headers of a response that gets the script.
unfoldable pub edit_headers : Plan → Headers → Headers
edit_headers p h =
    let h = replace_values (text "Content-Security-Policy") p.enforce h in
    let h = replace_values (text "Content-Security-Policy-Report-Only") p.report h in
    let h = del (text "Content-Length") h in
    let e = get (text "ETag") h in
    let h : Headers =
      if not (is_empty e) && not (has_prefix e (text "W/"))
      then set (text "ETag") (text "W/" ++ e) h
      else h in
    let h = add_vary (text "Cookie") h in
    if is_empty p.nonce then h else set (text "Cache-Control") (text "no-store") h

-- What reaches the wrapped writer.
pub data Emit : Type 0 where
  header : ℕ → Headers → Emit
  bytes : Str → Emit

pub record Injector : Type 0 where
  pub headers : Headers
  pub status : ℕ
  pub buf : Str
  pub checked : Bool
  pub resolved : Bool
  pub sent : Bool

-- newInjector
abbrev pub new_injector : Headers → Injector
new_injector h = record {
  headers = h;
  status = 200;
  buf = [];
  checked = false;
  resolved = false;
  sent = false;
}

-- The header, where it has not gone out.
unfoldable pub send : Injector → List Emit
send i = if i.sent then [] else header i.status i.headers ∷ []

-- giveUp
unfoldable pub give_up : Injector → Injector × List Emit
give_up i = (
  record i { resolved = true; sent = true; buf = [] },
  send i ++ (if is_empty i.buf then [] else bytes i.buf ∷ []),
)

-- The end of decide: the script goes in at the place.
unfoldable pub inject : Plan → ℕ → Injector → Injector × List Emit
inject p point i =
    let h = edit_headers p i.headers in
    (
      record i { headers = h; resolved = true; sent = true; buf = [] },
      header i.status h ∷ bytes (take point i.buf) ∷ bytes p.tag ∷ bytes (drop point i.buf) ∷ [],
    )

-- A state of the injector, or a panic of the program; `stuck` is a search that does not end.
pub data Outcome : Type 0 where
  runs : Injector → List Emit → Outcome
  crashes stuck : Outcome

abbrev pub outcome : Injector × List Emit → Outcome
outcome (i, es) = runs i es

unfoldable pub prepend : List Emit → Outcome → Outcome
prepend es (runs i fs) = runs i (es ++ fs)
prepend es crashes = crashes
prepend es stuck = stuck

module _ (s : Script) where
  -- decide
  unfoldable pub decide : Injector → Outcome
  decide i = elim (insertion_point s.lower i.buf) [
    | panics ↦ crashes
    | spins ↦ stuck
    | nowhere ↦ outcome (give_up i)
    | at point ↦ elim (head_end s.lower i.buf) [
      | none ↦ outcome (give_up i)
      | some end ↦
          if ltb head_budget end
          then outcome (give_up i)
          else elim (s.plan (values (text "Content-Security-Policy") i.headers)
              (values (text "Content-Security-Policy-Report-Only") i.headers) i.buf) [
                | none ↦ outcome (give_up i)
                | some p ↦ outcome (inject p point i)
              ]
    ]
  ]

  -- WriteHeader
  unfoldable pub write_header : ℕ → Injector → Injector × List Emit
  write_header status i =
      if is_informational status
      then (i, header status i.headers ∷ [])
      else if i.sent || i.checked
      then (i, [])
      else if is_skipped s status i.headers
      then (
        record i { checked = true; status = status; resolved = true; sent = true },
        header status i.headers ∷ [],
      )
      else (record i { checked = true; status = status }, [])

  -- The rest of Write, once the headers have been vetted.
  unfoldable pub write_body : Str → Injector → Outcome
  write_body b i =
      if i.resolved
      then runs i (bytes b ∷ [])
      else let j : Injector = record i { buf = i.buf ++ b } in
        if not (looks_like_document j.buf)
        then outcome (give_up j)
        else if elim (head_end s.lower j.buf) [
          | none ↦ leb head_budget (length j.buf)
          | some end ↦ true
        ]
        then decide j
        else runs j []

  -- Write
  unfoldable pub write : Str → Injector → Outcome
  write b i =
      if i.checked
      then write_body b i
      else let (j, es) = write_header 200 i in prepend es (write_body b j)

  -- finish
  unfoldable pub finish : Injector → Outcome
  finish i = if i.resolved then runs (record i { sent = true }) (send i) else elim (decide i) [
    | crashes ↦ crashes
    | stuck ↦ stuck
    | runs j es ↦ runs (record j { sent = true }) (es ++ send j)
  ]

-- What the proxy does with the writer: it changes the headers, and calls one of the two methods.
pub data Use : Type 0 where
  changes : (Headers → Headers) → Use
  heads : ℕ → Use
  writes : Str → Use

-- A whole response: the uses of the writer, and finish.
unfoldable pub respond : Script → Injector → List Use → Outcome
respond s i [] = finish s i
respond s i (changes f ∷ us) = respond s (record i { headers = f i.headers }) us
respond s i (heads status ∷ us) =
    let (j, es) = write_header s status i in prepend es (respond s j us)
respond s i (writes b ∷ us) = elim (write s b i) [
  | crashes ↦ crashes
  | stuck ↦ stuck
  | runs j es ↦ prepend es (respond s j us)
]
