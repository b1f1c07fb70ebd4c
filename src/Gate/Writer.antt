-- ===== src/Gate/Writer.antt =====
-- internal/gate/pay.go, paidWriter: the response writer of a paid response. internal/gate/gate.go,
-- recorder: what the counters and the log see of a response.
pub mod HeaderLines
pub mod Sealing
pub mod Recording
pub mod Examples
use anteroom.Common.{
  ℕ, ◌+◌, ◌==◌, Bool, true, false, ◌&&◌, not, Option, none, some, List, [], ◌∷◌, ◌++◌, ltb, leb,
  length, if◌then◌else◌,
}
use anteroom.Common.Text.{Str, text, is_empty, str_eq, cut, trim_space}
use anteroom.Http.{Headers, values, del, add, set}
use anteroom.Gate.Passes.{cookie_name}
use anteroom.Gate.Ladder.{add_all}

-- The headers are those that the wrapped writer shares with the proxy.
pub record PaidWriter : Type 0 where
  pub headers : Headers
  pub settle : Str
  pub sealed : Bool
  pub pass_cookies : List Str

-- A call of the wrapped writer, with the headers it finds.
pub data Sent : Type 0 where
  head : ℕ → Headers → Sent
  body : Str → Headers → Sent
  flush : Headers → Sent

-- seal
unfoldable pub seal : PaidWriter → PaidWriter
seal p =
    if p.sealed
    then p
    else let h = add_all (text "Set-Cookie") p.pass_cookies p.headers in
      let h = set (text "Cache-Control") (text "no-store, private") h in
      let h = set (text "Pragma") (text "no-cache") h in
      let h = del (text "Expires") h in
      let h =
        if is_empty p.settle
        then del (text "PAYMENT-RESPONSE") h
        else set (text "PAYMENT-RESPONSE") p.settle h in
      record p { sealed = true; headers = del (text "PAYMENT-REQUIRED") h }

-- A Set-Cookie line of the pass cookie.
unfoldable pub is_pass_cookie : Str → Bool
is_pass_cookie value = elim (cut b'=' value) [
  | none ↦ false
  | some (name, rest) ↦ str_eq (trim_space name) cookie_name
]

-- The loop of holdPassCookies.
unfoldable pub hold_values : List Str → PaidWriter → PaidWriter
hold_values [] p = p
hold_values (v ∷ vs) p =
    if is_pass_cookie v
    then hold_values vs (record p { pass_cookies = p.pass_cookies ++ v ∷ [] })
    else hold_values vs (record p { headers = add (text "Set-Cookie") v p.headers })

-- holdPassCookies
unfoldable pub hold_pass_cookies : PaidWriter → PaidWriter
hold_pass_cookies p =
    let vs = values (text "Set-Cookie") p.headers in
    if length vs == 0
    then p
    else hold_values vs (record p { headers = del (text "Set-Cookie") p.headers })

-- A 1xx response that is not a protocol switch.
unfoldable pub is_informational : ℕ → Bool
is_informational status = leb 100 status && (ltb status 200 && not (status == 101))

-- WriteHeader
unfoldable pub write_header : ℕ → PaidWriter → PaidWriter × Sent
write_header status p =
    let q = if is_informational status then hold_pass_cookies p else seal p in
    (q, head status q.headers)

-- Write
unfoldable pub write : Str → PaidWriter → PaidWriter × Sent
write b p = let q = seal p in (q, body b q.headers)

-- Flush. It does not seal: before a header, net/http sends the headers it finds with the status 200.
unfoldable pub flush_through : PaidWriter → PaidWriter × Sent
flush_through p = (p, flush p.headers)

-- What the proxy does with the writer: it changes the headers, and calls one of the three methods.
-- What it does with the connection behind Unwrap is not in the model.
pub data Use : Type 0 where
  changes : (Headers → Headers) → Use
  heads : ℕ → Use
  writes : Str → Use
  flushes : Use

-- The calls that reach the wrapped writer.
unfoldable pub respond : PaidWriter → List Use → List Sent
respond p [] = []
respond p (changes f ∷ us) = respond (record p { headers = f p.headers }) us
respond p (heads status ∷ us) =
    let (q, sent) = write_header status p in let rest = respond q us in sent ∷ rest
respond p (writes b ∷ us) = let (q, sent) = write b p in let rest = respond q us in sent ∷ rest
respond p (flushes ∷ us) = let (q, sent) = flush_through p in let rest = respond q us in sent ∷ rest

-- The recorder, with the status that it starts from.
pub record Recorder : Type 0 where
  pub status : ℕ
  pub n : ℕ
  pub wrote : Bool

abbrev pub new_recorder : Recorder
new_recorder = record { status = 200; n = 0; wrote = false }

-- WriteHeader of the recorder
unfoldable pub record_header : ℕ → Recorder → Recorder
record_header status rec =
    if is_informational status
    then rec
    else if not rec.wrote
    then record rec { status = status; wrote = true }
    else rec

-- Write of the recorder; `n` bytes are written by the wrapped writer.
unfoldable pub record_write : ℕ → Recorder → Recorder
record_write n rec = record { status = rec.status; n = rec.n + n; wrote = true }

-- The recorder of a response, whose wrapped writer takes every byte.
unfoldable pub record_all : Recorder → List Sent → Recorder
record_all rec [] = rec
record_all rec (head status h ∷ ss) = record_all (record_header status rec) ss
record_all rec (body b h ∷ ss) = record_all (record_write (length b) rec) ss
record_all rec (flush h ∷ ss) = record_all rec ss
