-- ===== src/Network/Ranges.antt =====
-- privateaddr.go: the table of non-public ranges.
use rho_llm.Base.{
  ℕ, zero, suc, ◌+◌, ◌*◌, ◌/◌, ◌^◌, ◌<◌, ◌≡◌, refl, ap, none, Bool, true, false, ◌&&◌, ◌||◌, not,
  List, [], ◌∷◌, ◌==◌, arith, Bool-cases, inl, inr, Text, if_case, get_elem?, some,
}
use rho_llm.Network.{
  Addr, no_addr, v4, v6, Prefix, prefix_contains, any_contains, non_public_prefixes, canonical,
  unmap, well_known_nat64, is_special, private_addr,
}

unfoldable pub is_valid : Addr → Bool
is_valid no_addr = false
is_valid (v4 n) = true
is_valid (v6 n zone) = true

some_injective : {p q : Prefix} → some p ≡ some q → p ≡ q
some_injective {p} {q} e = ap (λ o. elim o as (λ _. Prefix) [ none ↦ p | some r ↦ r ]) e

-- The entry `k` of a table that has it.
any_contains-at :
    (ps : List Prefix) (k : ℕ) (p : Prefix) (a : Addr)
    → get_elem? ps k ≡ some p
    → prefix_contains p a ≡ true
    → any_contains ps a ≡ true
unfolding any_contains
any_contains-at [] k p a e h = cc
any_contains-at (q ∷ ps) zero p a e h = let same : q ≡ p = some_injective e in rw (same, h) refl
any_contains-at (q ∷ ps) (suc k) p a e h = ground (arith, any_contains-at ps k p a e h)

-- An entry's range is in the table.
listed :
    (k : ℕ) (p : Prefix) (a : Addr)
    → get_elem? non_public_prefixes k ≡ some p
    → (prefix_contains p a && not (any_contains non_public_prefixes a)) ≡ false
listed k p a e = ground (arith, any_contains-at non_public_prefixes k p a e)

-- The ranges that netip's own tests name stand in the table.
is_special-v4 : (n : ℕ) → is_special (v4 n) ≡ true → any_contains non_public_prefixes (v4 n) ≡ true
unfolding is_special prefix_contains
is_special-v4 n h = ground (
  arith,
  listed 0 _ (v4 n) refl,
  listed 1 _ (v4 n) refl,
  listed 3 _ (v4 n) refl,
  listed 4 _ (v4 n) refl,
  listed 5 _ (v4 n) refl,
  listed 9 _ (v4 n) refl,
  listed 13 _ (v4 n) refl,
)

is_special-v6 :
    (n : ℕ) → is_special (v6 n []) ≡ true → any_contains non_public_prefixes (v6 n []) ≡ true
unfolding is_special prefix_contains
is_special-v6 n h = ground (
  arith,
  listed 15 _ (v6 n []) refl,
  listed 26 _ (v6 n []) refl,
  listed 27 _ (v6 n []) refl,
  listed 29 _ (v6 n []) refl,
)

-- A canonical address has no zone.
data Zoneless : Addr → Type 0 where
  no_addr_zoneless : Zoneless no_addr
  v4_zoneless : (n : ℕ) → Zoneless (v4 n)
  v6_zoneless : (n : ℕ) → Zoneless (v6 n [])

canonical-Zoneless : (a : Addr) → Zoneless (canonical a)
unfolding canonical unmap prefix_contains
canonical-Zoneless no_addr = no_addr_zoneless
canonical-Zoneless (v4 n) = v4_zoneless n
canonical-Zoneless (v6 n zone) = elim (Bool-cases (n / 2 ^ 32 == 0xffff)) [
  | inl e ↦ rw e (v4_zoneless _)
  | inr e ↦ rw e (
      if_case Zoneless (prefix_contains well_known_nat64 (v6 n [])) (v4_zoneless _) (v6_zoneless n))
]

special_or_listed :
    {a : Addr}
    → Zoneless a
    → (is_special a || any_contains non_public_prefixes a)
      ≡ (not (is_valid a) || any_contains non_public_prefixes a)
unfolding is_valid is_special
special_or_listed no_addr_zoneless = refl
special_or_listed (v4_zoneless n) = ground (arith, is_special-v4 n)
special_or_listed (v6_zoneless n) = ground (arith, is_special-v6 n)

canonical-mapped :
    (n : ℕ) (zone : Text)
    → n < 2 ^ 32
    → canonical (v6 (0xffff * 2 ^ 32 + n) zone) ≡ canonical (v4 n)
unfolding canonical unmap prefix_contains
canonical-mapped n zone h = ground arith

canonical-nat64 :
    (n : ℕ) (zone : Text)
    → n < 2 ^ 32
    → canonical (v6 (0x64ff9b * 2 ^ 96 + n) zone) ≡ canonical (v4 n)
unfolding canonical unmap prefix_contains
canonical-nat64 n zone h = ground arith

-- The table alone decides: an address is refused exactly if its canonical form is not a valid
-- address or stands in one of the table's ranges. So netip's own tests for loopback, private,
-- link-local and multicast addresses refuse nothing that the table does not.
pub private_addr_lem :
    (a : Addr)
    → private_addr a
      ≡ (not (is_valid (canonical a)) || any_contains non_public_prefixes (canonical a))
unfolding private_addr
private_addr_lem a = special_or_listed (canonical-Zoneless a)

-- An IPv4 address is judged the same in its IPv4-mapped form, in the NAT64 well-known prefix, and by
-- itself, whatever the zone.
pub private_addr-embedded :
    (n : ℕ) (zone : Text)
    → n < 2 ^ 32
    → (private_addr (v6 (0xffff * 2 ^ 32 + n) zone) ≡ private_addr (v4 n))
      × (private_addr (v6 (0x64ff9b * 2 ^ 96 + n) zone) ≡ private_addr (v4 n))
unfolding private_addr
private_addr-embedded n zone h =
    let mapped : canonical (v6 (0xffff * 2 ^ 32 + n) zone) ≡ canonical (v4 n) =
      canonical-mapped n zone h in
    let nat64 : canonical (v6 (0x64ff9b * 2 ^ 96 + n) zone) ≡ canonical (v4 n) =
      canonical-nat64 n zone h in
    (rw mapped refl, rw nat64 refl)
