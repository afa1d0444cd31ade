-- ===== src/Tests/Egress.antt =====
-- privateaddr.go, egress.go and proxytunnel.go: addresses, a host with two addresses, and their race.
use rho_llm.Base.{ℕ, ◌+◌, ◌*◌, ◌≡◌, refl, text, true, none, some, [], ◌∷◌, inl, ◌||◌, not}
use rho_llm.Network.{
  Addr, v4, v6, AddrText, canonical, any_contains, non_public_prefixes, private_addr, is_special,
  prefix_contains, unmap,
}
use rho_llm.Network.Ranges.{is_valid, private_addr_lem}
use rho_llm.Network.Egress.{Lookup, interleave, alternate, resolve_public, dial_targets}
use rho_llm.Network.Egress.Public.{Checked, resolve_public-Checked}
use rho_llm.Network.Egress.Tunnel.{Reachable, dial_targets-Reachable}
use rho_llm.Network.Egress.Race.{
  Racing, begin, start, Steps, here, then, wins, connects_late, ticks, total, of_winner,
  race_accounts,
}

abbrev metadata : Addr
metadata = v6 (0x64ff9b * 79228162514264337593543950336 + 0xa9fea9fe) (text "eth0")

private_addr_lem_example :
    private_addr metadata
    ≡ (not (is_valid (canonical metadata)) || any_contains non_public_prefixes (canonical metadata))
private_addr_lem_example = private_addr_lem metadata

metadata_refused : private_addr metadata ≡ true
unfolding private_addr canonical any_contains is_special prefix_contains unmap
metadata_refused = refl

abbrev one : Addr
one = v4 0x08080808

abbrev one' : Addr
one' = v4 0x08080404

abbrev other : Addr
other = v6 (0x20014860 * 79228162514264337593543950336 + 0x8888) []

abbrev formats : AddrText
formats = record { parse_addr = λ t. none; addr_string = λ a. text "addr"; quoted = λ t. t }

abbrev resolver : Lookup
resolver host = inl (one ∷ other ∷ one' ∷ [])

resolve_public-Checked_example : Checked (resolve_public formats resolver (text "api.test"))
resolve_public-Checked_example = resolve_public-Checked formats resolver (text "api.test")

dial_targets-Reachable_example :
    Reachable formats resolver (text "proxy.test") (text "8080") (text "443") (
      dial_targets formats resolver
        (inl (text "proxy.test", text "8080"))
        (text "api.test:443")
        (inl (text "api.test", text "443")))
dial_targets-Reachable_example =
    dial_targets-Reachable formats resolver (text "proxy.test") (text "8080") (text "api.test:443")
      (text "api.test") (text "443")

alternates : interleave (one ∷ one' ∷ other ∷ []) ≡ one ∷ other ∷ one' ∷ []
unfolding interleave alternate
alternates = refl

-- The timer starts a second attempt, the first one wins, and the second connects too late.
abbrev begun : Racing
begun = begin one (other ∷ [])

abbrev ticked : Racing
ticked = record { todo = []; running = other ∷ one ∷ []; lost = []; won = none; closed = [] }

abbrev won : Racing
won = record { todo = []; running = other ∷ []; lost = []; won = some one; closed = [] }

abbrev done : Racing
done = record { todo = []; running = []; lost = []; won = some one; closed = other ∷ [] }

first_wins : Steps 3 begun done
unfolding start
first_wins =
    then 2 begun won done
      (then 1 begun ticked won
        (then 0 begun begun ticked (here begun) (ticks begun other [] refl (λ e. cc) refl))
        (wins ticked (other ∷ []) [] one refl refl))
      (connects_late won [] [] other one refl refl)

abbrev counts_one : Addr → ℕ
counts_one (v4 n) = 1
counts_one a = 0

race_accounts_example :
    (total counts_one done.todo
        + (total counts_one done.running
            + (total counts_one done.lost
                + (of_winner counts_one done.won + total counts_one done.closed)))
      ≡ total counts_one (one ∷ other ∷ []))
    × (done.won ≡ none
        → done.running ≡ []
        → total counts_one done.lost ≡ total counts_one (one ∷ other ∷ []))
race_accounts_example = race_accounts one (other ∷ []) 3 done first_wins counts_one
