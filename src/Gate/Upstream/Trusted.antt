-- ===== src/Gate/Upstream/Trusted.antt =====
-- The address and the scheme that the upstream is told are the ones that the gate resolved.
use anteroom.Common.{
  ◌≡◌, refl, sym, ◌∙◌, subst, inl, inr, Bool, true, false, none, some, List, [], ◌∷◌, arith,
  if◌then◌else◌, All, Option-cases, ap,
}
use anteroom.Common.Text.{Str, text, str_eq, str_eq-eq, equal_fold, to_lower}
use anteroom.Net.{Addr}
use anteroom.Http.{
  Headers, Request, values, del, set, values-del, values-del_other, values-set, values-set_other,
}
use anteroom.Bypass.{client_ip, request_is_tls}
use anteroom.Gate.Passes.{Gate}
use anteroom.Gate.Upstream.{client_ip_headers, del_all, rewrite}

same_name :
    (n name other : Str) → equal_fold name other ≡ true → equal_fold n name ≡ equal_fold n other
unfolding equal_fold
same_name n name other h = ap (str_eq (to_lower n)) (str_eq-eq (to_lower name) (to_lower other) h)

values-del_absent :
    (name other : Str) (h : Headers) → values other h ≡ [] → values other (del name h) ≡ []
unfolding values del
values-del_absent name other [] e = refl
values-del_absent name other ((n, v) ∷ h) e = ground (arith, values-del_absent name other h)

values-del_all :
    (names : List Str) (other : Str) (h : Headers)
    → values other h ≡ []
    → values other (del_all names h) ≡ []
unfolding del_all
values-del_all [] other h e = e
values-del_all (name ∷ names) other h e =
    values-del_all names other (del name h) (values-del_absent name other h e)

del_all-none : (names : List Str) (h : Headers) → All (λ n. values n (del_all names h) ≡ []) names
unfolding del_all
del_all-none [] h = tt
del_all-none (name ∷ names) h =
    (values-del_all names name (del name h) (values-del name h), del_all-none names (del name h))

-- The names under which other vendors tell the address of a client.
abbrev pub vendor_names : List Str
vendor_names =
    text "CF-Connecting-IP"
    ∷ text "True-Client-IP"
    ∷ text "X-Client-IP"
    ∷ text "Fastly-Client-IP"
    ∷ text "X-Cluster-Client-IP"
    ∷ text "X-Original-Forwarded-For"
    ∷ []

-- The address of the peer of the connection, where net.SplitHostPort reads it.
abbrev pub peer : Gate → Request → List Str
peer g r = elim (g.net.split_host_port r.remote_addr) [ none ↦ [] | some (host, port) ↦ host ∷ [] ]

-- What httputil documents of the headers before and after ProxyRequest.SetXForwarded: the lines of the
-- request are taken off, and X-Forwarded-For is the peer.
pub record SetsForwarded (g : Gate) (forwarded_for : Request → Headers → Headers) : Type 0 where
  pub peers :
      (r : Request) (h : Headers) → values (text "X-Forwarded-For") (forwarded_for r h) ≡ peer g r
  pub stripped : (r : Request) (h : Headers) → values (text "Forwarded") (forwarded_for r h) ≡ []

-- What the upstream is told of the client.
pub record Tells (g : Gate) (r : Request) (h : Headers) : Type 0 where
  pub proto :
      values (text "X-Forwarded-Proto") h
      ≡ (if request_is_tls g.net g.match r then text "https" else text "http") ∷ []
  pub resolved :
      (ip : Addr)
      → client_ip g.net g.match r ≡ some ip
      → (values (text "X-Real-IP") h ≡ g.net.show_addr ip ∷ [])
        × (values (text "X-Forwarded-For") h ≡ g.net.show_addr ip ∷ [])
  pub unresolved :
      client_ip g.net g.match r ≡ none
      → (values (text "X-Real-IP") h ≡ []) × (values (text "X-Forwarded-For") h ≡ peer g r)
  pub vendors : All (λ n. values n h ≡ []) vendor_names
  pub forwarded : values (text "Forwarded") h ≡ []

-- The last lines that are set.
abbrev with_proto : Bool → Headers → Headers
with_proto tls h =
    if tls
    then set (text "X-Forwarded-Proto") (text "https") h
    else set (text "X-Forwarded-Proto") (text "http") h

abbrev with_ip : Str → Headers → Headers
with_ip ip h = set (text "X-Real-IP") ip (set (text "X-Forwarded-For") ip h)

values-with_proto :
    (tls : Bool) (h : Headers)
    → values (text "X-Forwarded-Proto") (with_proto tls h)
      ≡ (if tls then text "https" else text "http") ∷ []
values-with_proto true h = values-set (text "X-Forwarded-Proto") (text "https") h
values-with_proto false h = values-set (text "X-Forwarded-Proto") (text "http") h

values-with_proto_other :
    (tls : Bool) (n : Str) (h : Headers)
    → equal_fold (text "X-Forwarded-Proto") n ≡ false
    → values n (with_proto tls h) ≡ values n h
values-with_proto_other true n h f =
    values-set_other (text "X-Forwarded-Proto") n (text "https") h f
values-with_proto_other false n h f =
    values-set_other (text "X-Forwarded-Proto") n (text "http") h f

values-with_ip_other :
    (n ip : Str) (h : Headers)
    → equal_fold (text "X-Real-IP") n ≡ false
    → equal_fold (text "X-Forwarded-For") n ≡ false
    → values n (with_ip ip h) ≡ values n h
values-with_ip_other n ip h e f =
    values-set_other (text "X-Real-IP") n ip (set (text "X-Forwarded-For") ip h) e
    ∙ values-set_other (text "X-Forwarded-For") n ip h f

abbrev IsApart : Str → Type 0
IsApart n =
    (equal_fold (text "X-Real-IP") n ≡ false)
    × (equal_fold (text "X-Forwarded-For") n ≡ false)
    × (equal_fold (text "X-Forwarded-Proto") n ≡ false)

vendors-IsApart : All IsApart vendor_names
unfolding equal_fold to_lower str_eq text
vendors-IsApart = (
  (refl, refl, refl),
  (
    (refl, refl, refl),
    ((refl, refl, refl), ((refl, refl, refl), ((refl, refl, refl), ((refl, refl, refl), tt)))),
  ),
)

names_apart :
    (equal_fold (text "X-Forwarded-Proto") (text "X-Real-IP") ≡ false)
    × (equal_fold (text "X-Forwarded-Proto") (text "X-Forwarded-For") ≡ false)
    × (equal_fold (text "X-Real-IP") (text "X-Forwarded-For") ≡ false)
unfolding equal_fold to_lower str_eq text
names_apart = (refl, refl, refl)

All-join :
    (P Q R : Str → Type 0)
    → ((n : Str) → P n → Q n → R n)
    → (ns : List Str) → All P ns
    → All Q ns
    → All R ns
All-join P Q R f [] p q = tt
All-join P Q R f (n ∷ ns) p q = (f n p.0 q.0, All-join P Q R f ns p.1 q.1)

vendors_dropped :
    (h : Headers) → All (λ n. values n (del_all client_ip_headers h) ≡ []) vendor_names
unfolding client_ip_headers
vendors_dropped h = (del_all-none client_ip_headers h).1

real_ip_dropped : (h : Headers) → values (text "X-Real-IP") (del_all client_ip_headers h) ≡ []
unfolding client_ip_headers
real_ip_dropped h = (del_all-none client_ip_headers h).0

-- The headers that the gate takes off are no forwarding headers.
forwards-IsApart :
    All (λ n. equal_fold n (text "X-Forwarded-For") ≡ false) client_ip_headers
    × All (λ n. equal_fold n (text "Forwarded") ≡ false) client_ip_headers
    × IsApart (text "Forwarded")
unfolding client_ip_headers equal_fold to_lower str_eq text
forwards-IsApart = (
  (refl, (refl, (refl, (refl, (refl, (refl, (refl, tt))))))),
  (refl, (refl, (refl, (refl, (refl, (refl, (refl, tt))))))),
  (refl, refl, refl),
)

values-del_all_other :
    (names : List Str) (n : Str) (h : Headers)
    → All (λ m. equal_fold m n ≡ false) names
    → values n (del_all names h) ≡ values n h
unfolding del_all
values-del_all_other [] n h a = refl
values-del_all_other (m ∷ names) n h a =
    values-del_all_other names n (del m h) a.1 ∙ values-del_other m n h a.0

-- The upstream is told exactly one scheme, and exactly the address that the gate resolved. Without one
-- there is no X-Real-IP, and X-Forwarded-For is the peer of the connection, as SetXForwarded documents
-- it. No Forwarded line and no line of another vendor's name reaches the upstream.
pub rewrite-Tells :
    (g : Gate) (forwarded_for : Request → Headers → Headers) (r : Request)
    → SetsForwarded g forwarded_for
    → Tells g r (rewrite g forwarded_for r)
unfolding rewrite
rewrite-Tells g forwarded_for r sets =
    let tls = request_is_tls g.net g.match r in
    let h = del_all client_ip_headers (forwarded_for r r.headers) in
    let (pr, pf, rf) = names_apart in
    let (others, no_forwarded, (fa, fb, fc)) = forwards-IsApart in
    let lines =
      values-del_all_other client_ip_headers (text "X-Forwarded-For") (forwarded_for r r.headers)
        others in
    let gone =
      values-del_all_other client_ip_headers (text "Forwarded") (forwarded_for r r.headers)
        no_forwarded
      ∙ sets.stripped r r.headers in
    elim (Option-cases (client_ip g.net g.match r)) [
      | inl e ↦
          let whole : rewrite g forwarded_for r ≡ with_proto tls h = ground (arith, e) in
          subst (Tells g r) (sym whole) (record {
            proto = values-with_proto tls h;
            resolved = λ ip f. absurd (ground (arith, e, f));
            unresolved = λ f. (
              values-with_proto_other tls (text "X-Real-IP") h pr
                  ∙ real_ip_dropped (forwarded_for r r.headers),
              values-with_proto_other tls (text "X-Forwarded-For") h pf
                  ∙ lines
                  ∙ sets.peers r r.headers,
            );
            forwarded = values-with_proto_other tls (text "Forwarded") h fc ∙ gone;
            vendors =
                All-join IsApart (λ n. values n h ≡ []) (λ n. values n (with_proto tls h) ≡ [])
                  (λ n (a, b, c) d. values-with_proto_other tls n h c ∙ d) vendor_names
                  vendors-IsApart (vendors_dropped (forwarded_for r r.headers));
          })
      | inr (ip, e) ↦
          let k = with_ip (g.net.show_addr ip) h in
          let whole : rewrite g forwarded_for r ≡ with_proto tls k = ground (arith, e) in
          subst (Tells g r) (sym whole) (record {
            proto = values-with_proto tls k;
            resolved = λ other f.
                let same : ip ≡ other = ground (arith, e, f) in
                let show = ap (λ a. g.net.show_addr a ∷ []) same in
                (
                  values-with_proto_other tls (text "X-Real-IP") k pr
                      ∙ values-set (text "X-Real-IP") (g.net.show_addr ip)
                          (set (text "X-Forwarded-For") (g.net.show_addr ip) h)
                      ∙ show,
                  values-with_proto_other tls (text "X-Forwarded-For") k pf
                      ∙ values-set_other (text "X-Real-IP") (text "X-Forwarded-For")
                          (g.net.show_addr ip) (set (text "X-Forwarded-For") (g.net.show_addr ip) h)
                          rf
                      ∙ values-set (text "X-Forwarded-For") (g.net.show_addr ip) h
                      ∙ show,
                );
            unresolved = λ f. absurd (ground (arith, e, f));
            forwarded =
                values-with_proto_other tls (text "Forwarded") k fc
                ∙ values-with_ip_other (text "Forwarded") (g.net.show_addr ip) h fa fb
                ∙ gone;
            vendors =
                All-join IsApart (λ n. values n h ≡ []) (λ n. values n (with_proto tls k) ≡ [])
                  (λ n (a, b, c) d.
                    values-with_proto_other tls n k c
                    ∙ values-with_ip_other n (g.net.show_addr ip) h a b
                    ∙ d)
                  vendor_names vendors-IsApart (vendors_dropped (forwarded_for r r.headers));
          })
    ]
