-- ===== src/Gate/Upstream.antt =====
-- internal/gate/gate.go, newProxy: the headers of a request on its way to the upstream, and of the
-- response on its way back.
pub mod Trusted
pub mod Examples
use anteroom.Common.{
  ◌≡◌, refl, sym, ◌∙◌, Bool, true, false, Option, none, some, List, [], ◌∷◌, arith, if◌then◌else◌,
  All, Option-cases, Bool-cases,
}
use anteroom.Common.Text.{Str, text, str_eq, equal_fold, to_lower}
use anteroom.Http.{
  Headers, Request, values, del, set, values-del, values-del_other, values-set, values-set_other,
  equal_fold_refl, equal_fold_join,
}
use anteroom.Bypass.{client_ip, request_is_tls}
use anteroom.Gate.Passes.{Gate}
use anteroom.Gate.Ladder.{action_header}

-- clientIPHeaders
unfoldable pub client_ip_headers : List Str
client_ip_headers =
    text "X-Real-IP"
    ∷ text "CF-Connecting-IP"
    ∷ text "True-Client-IP"
    ∷ text "X-Client-IP"
    ∷ text "Fastly-Client-IP"
    ∷ text "X-Cluster-Client-IP"
    ∷ text "X-Original-Forwarded-For"
    ∷ []

unfoldable pub del_all : List Str → Headers → Headers
del_all [] h = h
del_all (name ∷ names) h = del_all names (del name h)

-- The rewriting of the headers; `forwarded_for` is what ProxyRequest.SetXForwarded makes of them.
unfoldable pub rewrite : Gate → (Request → Headers → Headers) → Request → Headers
rewrite g forwarded_for r =
    let h = del_all client_ip_headers (forwarded_for r r.headers) in
    let h : Headers = elim (client_ip g.net g.match r) [
      | none ↦ h
      | some ip ↦
          set (text "X-Real-IP") (g.net.show_addr ip)
            (set (text "X-Forwarded-For") (g.net.show_addr ip) h)
    ] in
    if request_is_tls g.net g.match r
    then set (text "X-Forwarded-Proto") (text "https") h
    else set (text "X-Forwarded-Proto") (text "http") h

-- ModifyResponse
unfoldable pub modify_response : Headers → Headers
modify_response h = del action_header h
