-- ===== src/Net.antt =====
-- Addresses and prefixes, as the program uses the package net/netip. Zones are left out. How text
-- is parsed and printed is a parameter, the record NetText.
use anteroom.Common.{
  ℕ, ◌-◌, ◌*◌, ◌/◌, ◌%◌, ◌^◌, Bool, true, false, ◌&&◌, Option, ◌≡◌, refl, arith, leb, ◌==◌,
  if◌then◌else◌,
}
use anteroom.Common.Text.{Str}

-- `invalid` is the zero Addr.
pub data Addr : Type 0 where
  invalid : Addr
  v4 : ℕ → Addr
  v6 : ℕ → Addr

pub record Prefix : Type 0 where
  pub addr : Addr
  pub bits : ℕ

pub record NetText : Type 0 where
  pub parse_addr : Str → Option Addr
  pub parse_prefix : Str → Option Prefix
  pub show_addr : Addr → Str
  pub show_prefix : Prefix → Str
  pub split_host_port : Str → Option (Str × Str)

abbrev pub is_valid : Addr → Bool
is_valid invalid = false
is_valid (v4 n) = true
is_valid (v6 n) = true

-- Is6, which holds of the addresses ::ffff:0:0/96 too.
abbrev pub is_6 : Addr → Bool
is_6 invalid = false
is_6 (v4 n) = false
is_6 (v6 n) = true

-- Unmap: an IPv4 address in the range ::ffff:0:0/96 is taken out of it.
unfoldable pub unmap : Addr → Addr
unmap invalid = invalid
unmap (v4 n) = v4 n
unmap (v6 n) = if n / 2 ^ 32 == 0xffff then v4 (n % 2 ^ 32) else v6 n

-- The bits of `n` that the mask keeps, of `w` bits in all.
unfoldable pub network : ℕ → ℕ → ℕ → ℕ
network w bits n = n / 2 ^ (w - bits)

abbrev in_family : ℕ → Addr → Addr → Bool
in_family bits (v4 n) (v4 m) = leb bits 32 && network 32 bits n == network 32 bits m
in_family bits (v6 n) (v6 m) = leb bits 128 && network 128 bits n == network 128 bits m
in_family bits x y = false

-- Prefix.Contains: an address of the other family is never contained.
unfoldable pub prefix_contains : Prefix → Addr → Bool
unfolding network
prefix_contains p a = in_family p.bits p.addr a

-- BitLen
unfoldable pub bit_len : Addr → ℕ
bit_len invalid = 0
bit_len (v4 n) = 32
bit_len (v6 n) = 128

abbrev mask : ℕ → Addr → Addr
mask bits invalid = invalid
mask bits (v4 n) = v4 (network 32 bits n * 2 ^ (32 - bits))
mask bits (v6 n) = v6 (network 128 bits n * 2 ^ (128 - bits))

-- Prefix.Masked
unfoldable pub masked : Prefix → Prefix
unfolding network
masked p = record p { addr = mask p.bits p.addr }

unfoldable pub addr_eq : Addr → Addr → Bool
addr_eq invalid invalid = true
addr_eq (v4 n) (v4 m) = n == m
addr_eq (v6 n) (v6 m) = n == m
addr_eq a b = false

pub addr_eq-eq : (a b : Addr) → addr_eq a b ≡ true → a ≡ b
unfolding addr_eq
addr_eq-eq invalid invalid h = refl
addr_eq-eq invalid (v4 m) h = absurd (ground arith)
addr_eq-eq invalid (v6 m) h = absurd (ground arith)
addr_eq-eq (v4 n) invalid h = absurd (ground arith)
addr_eq-eq (v4 n) (v4 m) h = ground arith
addr_eq-eq (v4 n) (v6 m) h = absurd (ground arith)
addr_eq-eq (v6 n) invalid h = absurd (ground arith)
addr_eq-eq (v6 n) (v4 m) h = absurd (ground arith)
addr_eq-eq (v6 n) (v6 m) h = ground arith
