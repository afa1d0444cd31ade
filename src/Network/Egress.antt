-- ===== src/Network/Egress.antt =====
-- egress.go and proxytunnel.go: the connections of a client with BlockPrivateBaseURL set. Name
-- lookup is Go's resolver; what a connection attempt does is a parameter of the race.
pub mod Public
pub mod Tunnel
pub mod Interleave
pub mod Race
use rho_llm.Base.{
  ℕ, zero, suc, Text, text, text_eq, to_lower, Bool, true, false, ◌&&◌, ◌||◌, not, Option, none,
  some, List, [], ◌∷◌, ◌++◌, ◌==◌, map, if◌then◌else◌, ◌⊎◌, inl, inr,
}
use rho_llm.Errors.{GoError, sentinel, suffixed, wrapped, private_address}
use rho_llm.Errors.Render.{error_text}
use rho_llm.Network.{
  Addr, no_addr, v4, v6, unmap, without_zone, private_addr, AddrText, refused, check_host, trim_dot,
}

-- lookupNetIP(ctx, "ip", host).
abbrev pub Lookup : Type 0
Lookup = Text → List Addr ⊎ GoError

abbrev pub first_private : List Addr → Option Addr
first_private [] = none
first_private (a ∷ others) =
    let rest = first_private others in if private_addr a then some a else rest

module _ (fmt : AddrText) (lookup : Lookup) where
  -- The checks on what a lookup returned.
  unfoldable pub check_addrs : Text → List Addr → List Addr ⊎ GoError
  check_addrs host [] = inr (refused (host ++ text " resolves to no address"))
  check_addrs host (a ∷ others) = elim (first_private (a ∷ others)) [
    | some p ↦ inr (refused (host ++ (text " resolves to " ++ fmt.addr_string p)))
    | none ↦ inl (map unmap (a ∷ others))
  ]

  unfoldable pub looked_up : Text → List Addr ⊎ GoError → List Addr ⊎ GoError
  looked_up host (inr e) = inr (refused (text "resolve " ++ (host ++ (text ": " ++ error_text e))))
  looked_up host (inl addrs) = check_addrs host addrs

  unfoldable pub after_check : Text → (Addr × Bool) ⊎ GoError → List Addr ⊎ GoError
  after_check host (inr e) = inr e
  after_check host (inl (addr, true)) = inl (unmap addr ∷ [])
  after_check host (inl (addr, false)) = looked_up host (lookup host)

  unfoldable pub resolve_public : Text → List Addr ⊎ GoError
  resolve_public host = after_check host (check_host fmt host)

-- Addr.Is4, and the addresses of one family.
abbrev pub is_v4 : Addr → Bool
is_v4 no_addr = false
is_v4 (v4 n) = true
is_v4 (v6 n zone) = false

abbrev pub same_bool : Bool → Bool → Bool
same_bool true b = b
same_bool false b = not b

abbrev pub family : Bool → List Addr → List Addr
family b [] = []
family b (a ∷ others) = if same_bool (is_v4 a) b then a ∷ family b others else family b others

-- first[0], second[0], first[1], second[1] and so on.
unfoldable pub alternate : List Addr → List Addr → List Addr
alternate [] ys = ys
alternate (x ∷ xs) [] = x ∷ xs
alternate (x ∷ xs) (y ∷ ys) = x ∷ y ∷ alternate xs ys

unfoldable pub interleave : List Addr → List Addr
interleave [] = []
interleave (a ∷ others) =
    alternate (family (is_v4 a) (a ∷ others)) (family (not (is_v4 a)) (a ∷ others))

-- `==` on netip.Addr values.
abbrev pub addr_eq : Addr → Addr → Bool
addr_eq no_addr no_addr = true
addr_eq (v4 m) (v4 n) = m == n
addr_eq (v6 m y) (v6 n z) = m == n && text_eq y z
addr_eq _ _ = false

unfoldable pub normalize_host : Text → Text
normalize_host host = trim_dot (to_lower host)

-- Whether an address is among others, compared as refuseSelf does.
abbrev pub among : Addr → List Addr → Bool
among a [] = false
among a (c ∷ cs) = addr_eq (without_zone (unmap a)) (without_zone (unmap c)) || among a cs

abbrev pub first_among : List Addr → List Addr → Option Addr
first_among [] cs = none
first_among (a ∷ others) cs =
    let rest = first_among others cs in if among a cs then some a else rest

module _ (fmt : AddrText) (lookup : Lookup) where
  -- The addresses of the proxy, and the error of its lookup.
  unfoldable pub proxy_addrs : Text → List Addr ⊎ GoError
  proxy_addrs proxy_host = elim (fmt.parse_addr proxy_host) [
    | some literal ↦ inl (literal ∷ [])
    | none ↦ lookup proxy_host
  ]

  unfoldable pub refuse_addrs : Text → Text → List Addr → List Addr ⊎ GoError → Option GoError
  refuse_addrs host proxy_host checked (inr e) =
      some (wrapped (text "llm: resolve proxy " ++ proxy_host) e)
  refuse_addrs host proxy_host checked (inl addrs) = elim (first_among addrs checked) [
    | some a ↦ some (refused (host ++ (text " resolves to the proxy " ++ fmt.addr_string a)))
    | none ↦ none
  ]

  -- refuseSelf, with the proxy's host and port, or the error of splitting its address.
  unfoldable pub refuse_self : (Text × Text) ⊎ GoError → Text → Text → List Addr → Option GoError
  refuse_self (inr e) host port checked = some e
  refuse_self (inl (proxy_host, proxy_port)) host port checked =
      if not (text_eq port proxy_port)
      then none
      else if text_eq (normalize_host host) (normalize_host proxy_host)
      then some (refused (host ++ text " is the proxy"))
      else refuse_addrs host proxy_host checked (proxy_addrs proxy_host)

  unfoldable pub unless : Option GoError → List Addr → List Addr ⊎ GoError
  unless none addrs = inl addrs
  unless (some e) addrs = inr e

  unfoldable pub pinned_addrs :
      (Text × Text) ⊎ GoError → Text → Text → List Addr ⊎ GoError → List Addr ⊎ GoError
  pinned_addrs proxy host port (inr e) = inr e
  pinned_addrs proxy host port (inl addrs) = unless (refuse_self proxy host port addrs) addrs

  -- pinnedTunnel.dial up to the race: what it opens a tunnel to, given how Go splits the address of
  -- the target and that of the proxy.
  unfoldable pub dial_targets :
      (Text × Text) ⊎ GoError → Text → (Text × Text) ⊎ GoError → List Addr ⊎ GoError
  dial_targets proxy addr (inr e) = inr (refused addr)
  dial_targets proxy addr (inl (host, port)) =
      pinned_addrs proxy host port (resolve_public fmt lookup host)
