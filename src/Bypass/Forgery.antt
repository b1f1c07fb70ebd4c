-- ===== src/Bypass/Forgery.antt =====
-- ClientIP: what a client can write into X-Forwarded-For does not choose its address.
use mathlib.Core.List.{reverse, reverse-append}
use anteroom.Common.{
  ◌≡◌, refl, sym, ap, ◌∙◌, ◌⊎◌, inl, inr, Bool, true, false, not, none, some, List, [], ◌∷◌, ◌++◌,
  arith, Option-cases, Bool-cases, any, ◌||◌,
}
use anteroom.Common.Text.{Str, text}
use anteroom.Net.{Addr, Prefix, NetText, unmap}
use anteroom.Http.{Request, values}
use anteroom.Bypass.{Matcher, contains, walk, client_ip, trusted_peer, remote_host, split_xff}

pub any-append {ℓ} :
    {A : Type ℓ} (p : A → Bool) (xs ys : List A) → any p (xs ++ ys) ≡ (any p xs || any p ys)
unfolding any
any-append p [] ys = refl
any-append p (x ∷ xs) ys = ground (arith, any-append p xs ys)

any-reverse {ℓ} : {A : Type ℓ} (p : A → Bool) (xs : List A) → any p (reverse xs) ≡ any p xs
unfolding any
any-reverse p [] = refl
any-reverse p (x ∷ xs) =
    rw (reverse-append (x ∷ []) xs, any-append p (reverse xs) (x ∷ []))
      (ground (arith, any-reverse p xs))

unmap_idem : (a : Addr) → unmap (unmap a) ≡ unmap a
unfolding unmap
unmap_idem a = ground arith

contains-unmap : (ps : List Prefix) (a : Addr) → contains ps (unmap a) ≡ contains ps a
unfolding contains
contains-unmap ps a = rw (unmap_idem a)

module _ (net : NetText) where
  -- A hop that names no trusted proxy: another address, or no address at all.
  abbrev pub stops : List Prefix → Str → Bool
  stops trusted hop = elim (net.parse_addr hop) [
    | none ↦ true
    | some a ↦ not (contains trusted (unmap a))
  ]

  -- The hops of a request, the nearest one last.
  abbrev pub hops : Request → List Str
  hops r = split_xff (values (text "X-Forwarded-For") r.headers)

  walk-append :
      (trusted : List Prefix) (peer : Addr) (xs ys : List Str)
      → any (stops trusted) xs ≡ true
      → walk net trusted peer (xs ++ ys) ≡ walk net trusted peer xs
  unfolding walk any
  walk-append trusted peer [] ys h = cc
  walk-append trusted peer (x ∷ xs) ys h = ground (arith, walk-append trusted peer xs ys)

  walk_source :
      (trusted : List Prefix) (peer : Addr) (xs : List Str)
      → (walk net trusted peer xs ≡ peer) ⊎ (contains trusted (walk net trusted peer xs) ≡ false)
  unfolding walk
  walk_source trusted peer [] = inl refl
  walk_source trusted peer (x ∷ xs) = ground (arith, walk_source trusted peer xs)

  module _ (m : Matcher) where
    client_ip-trusted :
        (r : Request) (a : Addr)
        → net.parse_addr (remote_host net r) ≡ some a
        → contains m.trusted a ≡ true
        → client_ip net m r ≡ some (walk net m.trusted (unmap a) (reverse (hops r)))
    unfolding client_ip
    client_ip-trusted r a e h = ground (arith, contains-unmap m.trusted a)

    client_ip-direct :
        (r : Request) (a : Addr)
        → net.parse_addr (remote_host net r) ≡ some a
        → contains m.trusted a ≡ false
        → client_ip net m r ≡ some (unmap a)
    unfolding client_ip
    client_ip-direct r a e h = ground (arith, contains-unmap m.trusted a)

    client_ip-unparsed :
        (r : Request) → net.parse_addr (remote_host net r) ≡ none → client_ip net m r ≡ none
    unfolding client_ip
    client_ip-unparsed r e = rw (e, client_ip)

    remote_host-same :
        (r r' : Request) → r'.remote_addr ≡ r.remote_addr → remote_host net r' ≡ remote_host net r
    unfolding remote_host
    remote_host-same r r' e = ground arith

    trusted_peer-eq :
        (r : Request) (a : Addr)
        → net.parse_addr (remote_host net r) ≡ some a
        → trusted_peer net m r ≡ contains m.trusted a
    unfolding trusted_peer
    trusted_peer-eq r a e = ground arith

    walk-forged :
        (peer : Addr) (real forged : List Str)
        → any (stops m.trusted) real ≡ true
        → walk net m.trusted peer (reverse (forged ++ real))
          ≡ walk net m.trusted peer (reverse real)
    walk-forged peer real forged h = rw (reverse-append forged real) (
        walk-append m.trusted peer (reverse real) (reverse forged)
          (any-reverse (stops m.trusted) real ∙ h))

    -- Hops that a client puts in front of the header never change the address that is resolved, if
    -- the peer is no trusted proxy, or if one of the hops behind them is no trusted proxy.
    pub client_ip_unforgeable :
        (r r' : Request) (forged : List Str)
        → r'.remote_addr ≡ r.remote_addr
        → hops r' ≡ forged ++ hops r
        → (trusted_peer net m r ≡ false) ⊎ (any (stops m.trusted) (hops r) ≡ true)
        → client_ip net m r' ≡ client_ip net m r
    client_ip_unforgeable r r' forged same more reason =
        let host = remote_host-same r r' same in
        elim (Option-cases (net.parse_addr (remote_host net r))) [
          | inl e ↦ client_ip-unparsed r' (rw host e) ∙ sym (client_ip-unparsed r e)
          | inr (a, e) ↦ elim (Bool-cases (contains m.trusted a)) [
            | inl yes' ↦
                client_ip-trusted r' a (rw host e) yes'
                ∙ ap some (
                    rw more (
                      walk-forged (unmap a) (hops r) forged
                        (ground (arith, reason, trusted_peer-eq r a e))))
                ∙ sym (client_ip-trusted r a e yes')
            | inr no' ↦ client_ip-direct r' a (rw host e) no' ∙ sym (client_ip-direct r a e no')
          ]
        ]

    -- The address is the peer's own, or one that belongs to no trusted proxy; and there is one
    -- exactly when the peer's address can be read.
    pub client_ip_source :
        (r : Request)
        → ((client_ip net m r ≡ none) × (net.parse_addr (remote_host net r) ≡ none))
          ⊎ ((a : Addr) × (peer : Addr) × (net.parse_addr (remote_host net r) ≡ some peer)
              × (client_ip net m r ≡ some a)
              × ((a ≡ unmap peer) ⊎ (contains m.trusted a ≡ false)))
    client_ip_source r = elim (Option-cases (net.parse_addr (remote_host net r))) [
      | inl e ↦ inl (client_ip-unparsed r e, e)
      | inr (a, e) ↦ elim (Bool-cases (contains m.trusted a)) [
        | inl yes' ↦ inr (
          _,
          a,
          e,
          client_ip-trusted r a e yes',
          walk_source m.trusted (unmap a) (reverse (hops r)),
        )
        | inr no' ↦ inr (_, a, e, client_ip-direct r a e no', inl refl)
      ]
    ]
