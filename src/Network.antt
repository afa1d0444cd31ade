-- ===== src/Network.antt =====
-- privateaddr.go: which addresses and hosts BlockPrivateBaseURL refuses. An address is its number,
-- of 32 or 128 bits; parsing and printing an address, and quoting, are Go's and parameters.
pub mod Ranges
pub mod Egress
use rho_llm.Base.{
  ℕ, zero, suc, ◌+◌, ◌*◌, ◌-◌, ◌/◌, ◌%◌, ◌^◌, Text, text, text_eq, is_empty, has_prefix, has_suffix,
  to_lower, Bool, true, false, ◌&&◌, ◌||◌, not, Option, none, some, List, [], ◌∷◌, ◌++◌, ◌==◌, leb,
  if◌then◌else◌, ◌⊎◌, inl, inr, drop,
}
use rho_llm.Errors.{GoError, sentinel, suffixed, private_address}

-- netip.Addr, an IPv6 address with its zone.
pub data Addr : Type 0 where
  no_addr : Addr
  v4 : ℕ → Addr
  v6 : ℕ → Text → Addr

-- netip.Prefix: the number of its first address, and its bits.
pub data Prefix : Type 0 where
  prefix4 prefix6 : ℕ → ℕ → Prefix

abbrev pub v4_net : ℕ → ℕ → ℕ → ℕ → ℕ → Prefix
v4_net a b c d bits = prefix4 (((a * 256 + b) * 256 + c) * 256 + d) bits

-- The first six groups of an IPv6 network, whose other two are 0.
abbrev pub v6_net : ℕ → ℕ → ℕ → ℕ → ℕ → ℕ → ℕ → Prefix
v6_net a b c d e f bits =
    prefix6 ((((((a * 65536 + b) * 65536 + c) * 65536 + d) * 65536 + e) * 65536 + f) * 2 ^ 32) bits

unfoldable pub prefix_contains : Prefix → Addr → Bool
prefix_contains (prefix4 base bits) (v4 n) = n / 2 ^ (32 - bits) == base / 2 ^ (32 - bits)
prefix_contains (prefix6 base bits) (v6 n zone) =
    is_empty zone && n / 2 ^ (128 - bits) == base / 2 ^ (128 - bits)
prefix_contains (prefix4 base bits) (v6 n zone) = false
prefix_contains (prefix6 base bits) (v4 n) = false
prefix_contains (prefix4 base bits) no_addr = false
prefix_contains (prefix6 base bits) no_addr = false

abbrev pub non_public_prefixes : List Prefix
non_public_prefixes =
    v4_net 0 0 0 0 8
    ∷ v4_net 10 0 0 0 8
    ∷ v4_net 100 64 0 0 10
    ∷ v4_net 127 0 0 0 8
    ∷ v4_net 169 254 0 0 16
    ∷ v4_net 172 16 0 0 12
    ∷ v4_net 192 0 0 0 24
    ∷ v4_net 192 0 2 0 24
    ∷ v4_net 192 88 99 0 24
    ∷ v4_net 192 168 0 0 16
    ∷ v4_net 198 18 0 0 15
    ∷ v4_net 198 51 100 0 24
    ∷ v4_net 203 0 113 0 24
    ∷ v4_net 224 0 0 0 4
    ∷ v4_net 240 0 0 0 4
    ∷ v6_net 0 0 0 0 0 0 96
    ∷ v6_net 0 0 0 0 0xffff 0 96
    ∷ v6_net 0x64 0xff9b 1 0 0 0 48
    ∷ v6_net 0x100 0 0 0 0 0 64
    ∷ v6_net 0x2001 0 0 0 0 0 32
    ∷ v6_net 0x2001 2 0 0 0 0 48
    ∷ v6_net 0x2001 0x10 0 0 0 0 28
    ∷ v6_net 0x2001 0xdb8 0 0 0 0 32
    ∷ v6_net 0x2002 0 0 0 0 0 16
    ∷ v6_net 0x3fff 0 0 0 0 0 20
    ∷ v6_net 0x5f00 0 0 0 0 0 16
    ∷ v6_net 0xfc00 0 0 0 0 0 7
    ∷ v6_net 0xfe80 0 0 0 0 0 10
    ∷ v6_net 0xfec0 0 0 0 0 0 10
    ∷ v6_net 0xff00 0 0 0 0 0 8
    ∷ []

abbrev pub well_known_nat64 : Prefix
well_known_nat64 = v6_net 0x64 0xff9b 0 0 0 0 96

-- Addr.WithZone("") and Addr.Unmap.
abbrev pub without_zone : Addr → Addr
without_zone no_addr = no_addr
without_zone (v4 n) = v4 n
without_zone (v6 n zone) = v6 n []

unfoldable pub unmap : Addr → Addr
unmap no_addr = no_addr
unmap (v4 n) = v4 n
unmap (v6 n zone) = if n / 2 ^ 32 == 0xffff then v4 (n % 2 ^ 32) else v6 n zone

-- The IPv4 address that the last four bytes of an IPv6 address make.
abbrev pub embedded : Addr → Addr
embedded (v6 n zone) = v4 (n % 2 ^ 32)
embedded (v4 n) = v4 n
embedded no_addr = no_addr

-- The address that is judged.
unfoldable pub canonical : Addr → Addr
canonical a =
    let u = unmap (without_zone a) in if prefix_contains well_known_nat64 u then embedded u else u

-- netip's tests: IsUnspecified, IsLoopback, IsPrivate, IsLinkLocalUnicast, IsLinkLocalMulticast and
-- IsMulticast, after !IsValid.
unfoldable pub is_special : Addr → Bool
is_special no_addr = true
is_special (v4 n) =
    n == 0
    || (n / 2 ^ 24 == 127
        || ((n / 2 ^ 24 == 10 || (n / 2 ^ 20 == 0xac1 || n / 2 ^ 16 == 0xc0a8))
            || (n / 2 ^ 16 == 0xa9fe || (n / 2 ^ 8 == 0xe00000 || n / 2 ^ 28 == 0xe))))
is_special (v6 n zone) =
    n == 0 && is_empty zone
    || (n == 1
        || (n / 2 ^ 121 == 126
            || (n / 2 ^ 118 == 1018
                || (n / 2 ^ 120 == 255 && n / 2 ^ 112 % 16 == 2 || n / 2 ^ 120 == 255))))

unfoldable pub any_contains : List Prefix → Addr → Bool
any_contains [] a = false
any_contains (p ∷ ps) a = prefix_contains p a || any_contains ps a

unfoldable pub private_addr : Addr → Bool
private_addr a = is_special (canonical a) || any_contains non_public_prefixes (canonical a)

-- Whether every byte passes a test: strings.Trim(s, cutset) == "".
abbrev pub all_bytes : (ℕ → Bool) → Text → Bool
all_bytes f [] = true
all_bytes f (c ∷ cs) = f c && all_bytes f cs

abbrev is_decimal : ℕ → Bool
is_decimal c = leb b'0' c && leb c b'9'

abbrev is_hexadecimal : ℕ → Bool
is_hexadecimal c = is_decimal c || leb b'a' c && leb c b'f'

abbrev has_dot : Text → Bool
has_dot [] = false
has_dot (c ∷ cs) = c == b'.' || has_dot cs

-- host[strings.LastIndex(host, ".")+1:].
unfoldable pub last_label : Text → Text
last_label [] = []
last_label (c ∷ cs) =
    let rest = last_label cs in if has_dot cs then rest else if c == b'.' then cs else c ∷ cs

unfoldable pub numeric_host : Text → Bool
numeric_host host =
    let last = last_label host in
    if has_prefix host (text "0x")
    then true
    else if has_prefix last (text "0x")
    then all_bytes is_hexadecimal (drop 2 last)
    else not (is_empty last) && all_bytes is_decimal last

-- strings.TrimSuffix(host, ".").
unfoldable pub trim_dot : Text → Text
trim_dot [] = []
trim_dot (c ∷ []) = if c == b'.' then [] else c ∷ []
trim_dot (c ∷ d ∷ cs) = c ∷ trim_dot (d ∷ cs)

-- netip.ParseAddr, Addr.String, and the %q of fmt.
pub record AddrText : Type 0 where
  pub parse_addr : Text → Option Addr
  pub addr_string : Addr → Text
  pub quoted : Text → Text

abbrev pub refused : Text → GoError
refused why = suffixed (sentinel private_address) (text ": " ++ why)

module _ (fmt : AddrText) where
  unfoldable pub check_name : Text → (Addr × Bool) ⊎ GoError
  check_name host =
      let lower = to_lower host in
      if is_empty lower
        || (text_eq lower (text "localhost") || has_suffix lower (text ".localhost"))
      then inr (refused (fmt.quoted host))
      else if numeric_host lower
      then inr (refused (fmt.quoted host ++ text " looks like an IPv4 address"))
      else inl (no_addr, false)

  -- The address if the host is a literal, and whether it is one.
  unfoldable pub check_host : Text → (Addr × Bool) ⊎ GoError
  check_host name =
      let host = trim_dot name in
      elim (fmt.parse_addr host) [
        | some addr ↦ if private_addr addr then inr (refused host) else inl (addr, true)
        | none ↦ check_name host
      ]
