-- ===== src/Network/Egress/Tunnel.antt =====
-- proxytunnel.go: what a tunnel through the proxy may be opened to.
use rho_llm.Base.{
  ◌≡◌, ◌≢◌, refl, Text, text, text_eq, true, false, Option, none, some, List, [], ◌∷◌, All, ◌++◌,
  ◌⊎◌, inl, inr, Bool-cases,
}
use rho_llm.Errors.{GoError}
use rho_llm.Network.{Addr, AddrText, refused}
use rho_llm.Network.Egress.{
  Lookup, among, first_among, proxy_addrs, refuse_addrs, refuse_self, normalize_host, unless,
  pinned_addrs, dial_targets, resolve_public,
}
use rho_llm.Network.Egress.Public.{Public, Checked, resolve_public-Checked}

Apart : List Addr → List Addr → Type 0
Apart proxy checked = All (λ p. among p checked ≡ false) proxy

first_among-Apart :
    (proxy checked : List Addr) → first_among proxy checked ≡ none → Apart proxy checked
unfolding Apart
first_among-Apart [] checked h = tt
first_among-Apart (p ∷ others) checked h = elim (Bool-cases (among p checked)) [
  | inl e ↦ let bad : some p ≡ none = rw e at h in cc
  | inr e ↦ (e, first_among-Apart others checked (rw e at h))
]

module _ (fmt : AddrText) (lookup : Lookup) (proxy_host proxy_port : Text) where
  -- On the proxy's port, no address is one of the proxy's.
  abbrev pub NotProxy : Text → List Addr → Type 0
  NotProxy port addrs =
      text_eq port proxy_port ≡ true
      → (proxy : List Addr) → proxy_addrs fmt lookup proxy_host ≡ inl proxy
      → All (λ p. among p addrs ≡ false) proxy

  abbrev pub Reachable : Text → List Addr ⊎ GoError → Type 0
  Reachable port (inl addrs) = (addrs ≢ []) × (All Public addrs × NotProxy port addrs)
  Reachable port (inr e) = Unit

  refuse_addrs-NotProxy :
      (host : Text) (addrs : List Addr) (r : List Addr ⊎ GoError)
      → refuse_addrs fmt lookup host proxy_host addrs r ≡ none
      → (proxy : List Addr) → r ≡ inl proxy
      → All (λ p. among p addrs ≡ false) proxy
  unfolding refuse_addrs Apart
  refuse_addrs-NotProxy host addrs r h proxy e =
      first_among-Apart proxy addrs (go (first_among proxy addrs) (rw e at h))
    where
      go :
          (o : Option Addr)
          → (elim o as (λ _. Option GoError) [
            | some a ↦
                some (refused (host ++ (text " resolves to the proxy " ++ fmt.addr_string a)))
            | none ↦ none
          ])
            ≡ none
          → o ≡ none
      go none p = refl
      go (some a) p = cc

  refuse_self-NotProxy :
      (host port : Text) (addrs : List Addr)
      → refuse_self fmt lookup (inl (proxy_host, proxy_port)) host port addrs ≡ none
      → NotProxy port addrs
  unfolding refuse_self
  refuse_self-NotProxy host port addrs h p =
      elim (Bool-cases (text_eq (normalize_host host) (normalize_host proxy_host))) [
        | inl e ↦
            let bad : some (refused (host ++ text " is the proxy")) ≡ none = rw (p, e) at h in cc
        | inr e ↦
            refuse_addrs-NotProxy host addrs (proxy_addrs fmt lookup proxy_host) (rw (p, e) at h)
      ]

  pinned_addrs-Reachable :
      (host port : Text) (r : List Addr ⊎ GoError)
      → Checked r
      → Reachable port (pinned_addrs fmt lookup (inl (proxy_host, proxy_port)) host port r)
  unfolding pinned_addrs unless
  pinned_addrs-Reachable host port (inr e) c = tt
  pinned_addrs-Reachable host port (inl addrs) c =
      go (refuse_self fmt lookup (inl (proxy_host, proxy_port)) host port addrs)
        (refuse_self-NotProxy host port addrs)
    where
      go :
          (o : Option GoError)
          → (o ≡ none → NotProxy port addrs)
          → Reachable port (unless fmt lookup o addrs)
      go none h = (c.0, (c.1, h refl))
      go (some e) h = tt

  -- pinnedTunnel.dial opens tunnels to public addresses only, at least one, and on the proxy's own
  -- port to none of the proxy's addresses; otherwise it returns an error.
  pub dial_targets-Reachable :
      (addr host port : Text)
      → Reachable port
          (dial_targets fmt lookup (inl (proxy_host, proxy_port)) addr (inl (host, port)))
  unfolding dial_targets
  dial_targets-Reachable addr host port =
      pinned_addrs-Reachable host port (resolve_public fmt lookup host)
        (resolve_public-Checked fmt lookup host)
