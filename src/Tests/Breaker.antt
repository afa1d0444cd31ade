-- ===== src/Tests/Breaker.antt =====
-- circuitbreaker.go, and refCountedClient of pool.go: runs at concrete inputs.
use rho_llm.Base.{some, ℕ, suc, ◌≡◌, refl, true, false, none, List, [], ◌∷◌, ◌++◌, arith, pos}
use rho_llm.Errors.{sentinel, eof}
use rho_llm.Circuit.Execute.{Ran}
use rho_llm.Clock.{at}
use rho_llm.Circuit.{
  CircuitBreaker, CircuitState, circuit_closed, circuit_open, circuit_half_open, Event, allows,
  succeeds, fails, releases, step, run, allow, Transition, bump_probe_gen,
}
use rho_llm.Circuit.Invariant.{WellFormed, step-WellFormed}
use rho_llm.Circuit.Opening.{failing, run-failing, open_blocks}
use rho_llm.Circuit.Probe.{foreign_ignored}
use rho_llm.Circuit.Transitions.{Chain}
use rho_llm.Circuit.Transitions.Callbacks.{
  Watched, Unfolds, unused, later, section, callback, Unfolds-Chain,
}
use mathlib.Core.List.{Permᴰ}
use rho_llm.RefCount.{Slot, new_slot, acquire, release, Reach, here, next, enter, retire}
use rho_llm.RefCount.Lifecycle.{Counted, Reach-Counted}

abbrev breaker_in : CircuitState → ℕ → CircuitBreaker
breaker_in s gen = record {
  state = s;
  failures = 0;
  threshold = pos 2;
  cooldown = pos 100;
  opened_at = at 10;
  probe_started = at 10;
  probe_gen = gen;
  is_success = none;
  observed = true;
}

breaker-WellFormed : WellFormed (breaker_in circuit_closed 0)
breaker-WellFormed = ground arith

probing-WellFormed : WellFormed (breaker_in circuit_half_open 3)
probing-WellFormed = ground arith

open-WellFormed : WellFormed (breaker_in circuit_open 3)
open-WellFormed = ground arith

step-WellFormed_example : WellFormed (step (breaker_in circuit_closed 0) (5, fails 0)).0
step-WellFormed_example =
    step-WellFormed (breaker_in circuit_closed 0) (5, fails 0) breaker-WellFormed

run-failing_example :
    (run (breaker_in circuit_closed 0) (failing ((1, 0) ∷ (2, 0) ∷ []))).state ≡ circuit_open
run-failing_example =
    run-failing (breaker_in circuit_closed 0) ((1, 0) ∷ (2, 0) ∷ []) breaker-WellFormed refl

abbrev reports : List (ℕ × Event)
reports = (20, allows) ∷ (21, fails 0) ∷ (22, succeeds 2) ∷ (23, releases 1) ∷ []

open_blocks_example :
    ((allow (run (breaker_in circuit_open 3) reports) 50).admitted ≡ false)
    × ((allow (run (breaker_in circuit_open 3) reports) 50).breaker
        ≡ run (breaker_in circuit_open 3) reports)
    × ((run (breaker_in circuit_open 3) reports).state ≡ circuit_open)
open_blocks_example =
    open_blocks (breaker_in circuit_open 3) reports 50 refl (ground arith) (omega arith)

foreign_ignored_example :
    (run (breaker_in circuit_half_open 3) reports ≡ breaker_in circuit_half_open 3)
    × ((allow (run (breaker_in circuit_half_open 3) reports) 50).admitted ≡ false)
foreign_ignored_example =
    foreign_ignored (breaker_in circuit_half_open 3) reports 50 refl (ground arith) (omega arith)

-- A probe is admitted and succeeds; the second callback overtakes the first.
abbrev cooled : CircuitBreaker
cooled = breaker_in circuit_open 3

abbrev probing : CircuitBreaker
unfolding step
probing = (step cooled (200, allows)).0

abbrev opens_half : Transition
opens_half = record { from = circuit_open; to = circuit_half_open }

abbrev closes : Transition
closes = record { from = circuit_half_open; to = circuit_closed }

abbrev overtaken : Watched
overtaken = record {
  breaker = (step probing (210, succeeds 4)).0;
  due = opens_half ∷ [];
  seen = closes ∷ [];
}

overtaken-Unfolds : Unfolds cooled overtaken
unfolding step bump_probe_gen
overtaken-Unfolds =
    later (later (later unused (section (200, allows))) (section (210, succeeds 4)))
      (callback [] closes (opens_half ∷ []) refl)

Unfolds-Chain_example :
    (ts : List Transition) × (Chain circuit_open ts overtaken.breaker.state
      × Permᴰ ts (overtaken.seen ++ overtaken.due))
Unfolds-Chain_example = Unfolds-Chain cooled overtaken refl overtaken-Unfolds

abbrev entered : Slot
entered = record new_slot { client = acquire new_slot.client; in_flight = suc new_slot.in_flight }

abbrev rotated : Slot
rotated = record entered { client = release entered.client; in_pool = false }

rotated-Reach : Reach new_slot rotated
unfolding new_slot
rotated-Reach = next (next here (enter refl)) (retire refl)

Reach-Counted_example : Counted rotated
Reach-Counted_example = Reach-Counted rotated-Reach

-- A call that fails at time 120.
abbrev fails_at : CircuitBreaker → Ran
fails_at cb = (some (sentinel eof), cb, 120)

admitted : (allow (breaker_in circuit_open 3) 110).admitted ≡ true
unfolding allow
admitted = refl
