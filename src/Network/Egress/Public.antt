-- ===== src/Network/Egress/Public.antt =====
-- egress.go and proxytunnel.go: only checked addresses are connected to.
use rho_llm.Base.{
  ◌≡◌, ◌≢◌, refl, Text, text, text_eq, Bool, true, false, ◌||◌, Option, none, some, List, [], ◌∷◌,
  ◌++◌, map, All, if◌then◌else◌, if_case, ◌⊎◌, inl, inr, arith, Bool-cases, is_empty, ◌==◌, ◌/◌,
  ◌^◌, to_lower, has_suffix,
}
use rho_llm.Errors.{GoError, is_sentinel, private_address}
use rho_llm.Errors.Status.{is_retryable}
use rho_llm.Network.{
  Addr, no_addr, v4, v6, unmap, canonical, private_addr, AddrText, refused, check_name, check_host,
  numeric_host, trim_dot,
}
use rho_llm.Network.Egress.{
  Lookup, first_private, check_addrs, looked_up, after_check, resolve_public,
}

canonical-unmap : (a : Addr) → canonical (unmap a) ≡ canonical a
unfolding canonical unmap
canonical-unmap no_addr = refl
canonical-unmap (v4 n) = refl
canonical-unmap (v6 n zone) = elim (Bool-cases (n / 2 ^ 32 == 0xffff)) [
  | inl e ↦ rw e refl
  | inr e ↦ rw (e, e) refl
]

private_addr-unmap : (a : Addr) → private_addr (unmap a) ≡ private_addr a
unfolding private_addr
private_addr-unmap a = rw (canonical-unmap a) refl

unmap_twice : (a : Addr) → unmap (unmap a) ≡ unmap a
unfolding unmap
unmap_twice no_addr = refl
unmap_twice (v4 n) = refl
unmap_twice (v6 n zone) = elim (Bool-cases (n / 2 ^ 32 == 0xffff)) [
  | inl e ↦ rw e refl
  | inr e ↦ rw e (rw e refl)
]

-- An address that may be connected to: public, and in its unmapped form.
abbrev pub Public : Addr → Type 0
Public a = (private_addr a ≡ false) × (unmap a ≡ a)

-- Public addresses, at least one, or a refusal that is not retried.
abbrev pub Checked : List Addr ⊎ GoError → Type 0
Checked (inl addrs) = (addrs ≢ []) × All Public addrs
Checked (inr e) = (is_sentinel private_address e ≡ true) × (is_retryable e ≡ false)

refused-Checked : (why : Text) → Checked (inr (refused why))
unfolding is_sentinel is_retryable
refused-Checked why = (refl, refl)

Public-unmap : (a : Addr) → private_addr a ≡ false → Public (unmap a)
Public-unmap a h = (rw (private_addr-unmap a) h, unmap_twice a)

Public-map : (addrs : List Addr) → first_private addrs ≡ none → All Public (map unmap addrs)
Public-map [] h = tt
Public-map (a ∷ others) h = elim (Bool-cases (private_addr a)) [
  | inl e ↦ let bad : some a ≡ none = rw e at h in cc
  | inr e ↦ (Public-unmap a e, Public-map others (ground arith))
]

∷_nonempty : (a : Addr) (others : List Addr) → a ∷ others ≢ []
∷_nonempty a others e = ground arith

module _ (fmt : AddrText) (lookup : Lookup) where
  check_addrs-Checked :
      (host : Text) (addrs : List Addr) → Checked (check_addrs fmt lookup host addrs)
  unfolding check_addrs
  check_addrs-Checked host [] = refused-Checked _
  check_addrs-Checked host (a ∷ others) = go (first_private (a ∷ others)) refl
    where
      go :
          (o : Option Addr)
          → first_private (a ∷ others) ≡ o
          → Checked (elim o as (λ _. List Addr ⊎ GoError) [
            | some p ↦ inr (refused (host ++ (text " resolves to " ++ fmt.addr_string p)))
            | none ↦ inl (map unmap (a ∷ others))
          ])
      go none e = (∷_nonempty _ _, Public-map (a ∷ others) e)
      go (some p) e = refused-Checked _

  looked_up-Checked :
      (host : Text) (r : List Addr ⊎ GoError) → Checked (looked_up fmt lookup host r)
  unfolding looked_up
  looked_up-Checked host (inr e) = refused-Checked _
  looked_up-Checked host (inl addrs) = check_addrs-Checked host addrs

  -- A literal is judged before it is let through.
  abbrev Judged : (Addr × Bool) ⊎ GoError → Type 0
  Judged (inl (addr, true)) = private_addr addr ≡ false
  Judged (inl (addr, false)) = Unit
  Judged (inr e) = (is_sentinel private_address e ≡ true) × (is_retryable e ≡ false)

  check_name-Judged : (host : Text) → Judged (check_name fmt host)
  unfolding check_name
  check_name-Judged host =
      if_case Judged
        (is_empty (to_lower host)
          || (text_eq (to_lower host) (text "localhost")
              || has_suffix (to_lower host) (text ".localhost")))
        (refused-Checked (fmt.quoted host))
        (if_case Judged (numeric_host (to_lower host)) (refused-Checked _) tt)

  check_host-Judged : (name : Text) → Judged (check_host fmt name)
  unfolding check_host
  check_host-Judged name = go (fmt.parse_addr (trim_dot name))
    where
      judge :
          (a : Addr) (b : Bool)
          → private_addr a ≡ b
          → Judged (if b then inr (refused (trim_dot name)) else inl (a, true))
      judge a true e = refused-Checked (trim_dot name)
      judge a false e = e

      go :
          (o : Option Addr)
          → Judged (elim o as (λ _. (Addr × Bool) ⊎ GoError) [
            | some addr ↦
                if private_addr addr then inr (refused (trim_dot name)) else inl (addr, true)
            | none ↦ check_name fmt (trim_dot name)
          ])
      go none = check_name-Judged (trim_dot name)
      go (some a) = judge a (private_addr a) refl

  after_check-Checked :
      (host : Text) (r : (Addr × Bool) ⊎ GoError)
      → Judged r
      → Checked (after_check fmt lookup host r)
  unfolding after_check
  after_check-Checked host (inr e) h = h
  after_check-Checked host (inl (addr, true)) h =
      (∷_nonempty (unmap addr) [], (Public-unmap addr h, tt))
  after_check-Checked host (inl (addr, false)) h = looked_up-Checked host (lookup host)

  -- Whatever the resolver answers, resolvePublic returns at least one address and only public ones,
  -- in their unmapped form, or an error that is ErrPrivateAddress and is not retried.
  pub resolve_public-Checked : (host : Text) → Checked (resolve_public fmt lookup host)
  unfolding resolve_public
  resolve_public-Checked host =
      after_check-Checked host (check_host fmt host) (check_host-Judged host)
