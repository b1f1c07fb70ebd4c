-- ===== src/Crawler/Confirming.antt =====
-- What forward-confirmed reverse DNS confirms.
use anteroom.Common.{
  ◌≡◌, refl, ◌↔◌, ◌⊎◌, inl, inr, Bool, true, false, Option, List, [], ◌∷◌, any, arith, Bool-cases,
  Any,
}
use anteroom.Common.Text.{Str}
use anteroom.Common.Result.{ok, Result-cases}
use anteroom.Net.{Addr}
use anteroom.Crawler.{
  verified, Provider, Resolver, DnsError, not_found, other, has_domain_suffix, canonical_name,
  is_addr, dns_error_verdict, confirm, verify_dns,
}

-- The name has a suffix of the provider and resolves to the address.
pub record Confirms (d : Resolver) (p : Provider) (a : Addr) (raw : Str) : Type 0 where
  pub suffix : has_domain_suffix (canonical_name raw) p.ptr_suffixes ≡ true
  pub addrs : List (Option Addr)
  pub resolves : d.lookup_ip_addr (canonical_name raw) ≡ ok addrs
  pub matches : any (is_addr a) addrs ≡ true

-- The address resolves to a list of names of which one confirms it.
pub record IsConfirmed (d : Resolver) (p : Provider) (a : Addr) : Type 0 where
  pub names : List Str
  pub looked : d.lookup_addr a ≡ ok names
  pub confirmed : Any (Confirms d p a) names

DnsError-cases : (e : DnsError) → (e ≡ not_found) ⊎ (e ≡ other)
DnsError-cases not_found = inl refl
DnsError-cases other = inr refl

module _ (d : Resolver) (p : Provider) (a : Addr) where
  confirm_sound :
      (doubt : Bool) (names : List Str)
      → confirm d p a doubt names ≡ verified
      → Any (Confirms d p a) names
  unfolding confirm
  confirm_sound true [] h = absurd (ground arith)
  confirm_sound false [] h = absurd (ground arith)
  confirm_sound doubt (raw ∷ raws) h =
      elim (Bool-cases (has_domain_suffix (canonical_name raw) p.ptr_suffixes)) [
        | inr outside ↦ inr (confirm_sound doubt raws (ground (arith, outside)))
        | inl inside ↦ elim (Result-cases (d.lookup_ip_addr (canonical_name raw))) [
          | inl (addrs, e) ↦ elim (Bool-cases (any (is_addr a) addrs)) [
            | inl found ↦
                inl (record { suffix = inside; addrs = addrs; resolves = e; matches = found })
            | inr missing ↦ inr (confirm_sound doubt raws (ground (arith, inside, e, missing)))
          ]
          | inr (x, e) ↦ elim (DnsError-cases x) [
            | inl n ↦ inr (confirm_sound doubt raws (ground (arith, inside, e, n)))
            | inr o ↦ inr (confirm_sound true raws (ground (arith, inside, e, o)))
          ]
        ]
      ]

  confirm_complete :
      (doubt : Bool) (names : List Str)
      → Any (Confirms d p a) names
      → confirm d p a doubt names ≡ verified
  unfolding confirm
  confirm_complete doubt [] h = absurd h
  confirm_complete doubt (raw ∷ raws) (inl c) = ground (arith, c.suffix, c.resolves, c.matches)
  confirm_complete doubt (raw ∷ raws) (inr h) =
      elim (Bool-cases (has_domain_suffix (canonical_name raw) p.ptr_suffixes)) [
        | inr outside ↦ ground (arith, outside, confirm_complete doubt raws h)
        | inl inside ↦ elim (Result-cases (d.lookup_ip_addr (canonical_name raw))) [
          | inl (addrs, e) ↦ ground (arith, inside, e, confirm_complete doubt raws h)
          | inr (x, e) ↦ elim (DnsError-cases x) [
            | inl n ↦ ground (arith, inside, e, n, confirm_complete doubt raws h)
            | inr o ↦ ground (arith, inside, e, o, confirm_complete true raws h)
          ]
        ]
      ]

  -- The resolver verifies an address exactly when its reverse lookup names a host under a suffix of
  -- the provider whose own lookup gives the address back.
  pub verify_dns-verified_iff : (verify_dns d p a ≡ verified) ↔ IsConfirmed d p a
  unfolding verify_dns dns_error_verdict
  verify_dns-verified_iff = (
    λ h. elim (Result-cases (d.lookup_addr a)) [
      | inl (names, e) ↦ record {
        names = names;
        looked = e;
        confirmed = confirm_sound false names (ground (arith, e));
      }
      | inr (x, e) ↦ elim (DnsError-cases x) [
        | inl n ↦ absurd (ground (arith, e, n))
        | inr o ↦ absurd (ground (arith, e, o))
      ]
    ],
    λ c. ground (arith, c.looked, confirm_complete false c.names c.confirmed),
  )
