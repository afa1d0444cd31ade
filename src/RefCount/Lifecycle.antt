-- ===== src/RefCount/Lifecycle.antt =====
-- pool.go: the life of a reference-counted client, over requests, rotation and Close.
use rho_llm.Base.{ℕ, ◌+◌, ◌<◌, ◌≡◌, false, pos, arith, if◌then◌else◌, ◌+ℤ◌, ◌-ℤ◌}
use rho_llm.RefCount.{
  acquire, release, Slot, Step, enter, leave, retire, Reach, here, next, new_slot,
  new_ref_counted_client,
}

abbrev held : Slot → ℕ
held s = (if s.in_pool then 1 else 0) + s.in_flight

-- The counter is the number of holders; Close has run once if there are none, and not before.
pub record Counted (s : Slot) : Type 0 where
  pub counter : s.client.refs ≡ pos (held s)
  pub held_open : 0 < held s → (s.client.closes ≡ 0) × (s.client.once_done ≡ false)
  pub free_closed : held s ≡ 0 → s.client.closes ≡ 1

new-Counted : Counted new_slot
unfolding new_slot new_ref_counted_client
new-Counted = ground arith

Step-Counted : {s t : Slot} → Step s t → Counted s → Counted t
unfolding acquire release ◌+ℤ◌ ◌-ℤ◌
Step-Counted (enter p) c = ground arith
Step-Counted (leave n e) c = ground arith
Step-Counted (retire p) c = ground arith

-- Over any interleaving of requests with a rotation or Close: the counter is the number of holders
-- (the pool and the requests in flight), the client is open while there is one, and its Close has
-- run exactly once when there is none.
pub Reach-Counted : {t : Slot} → Reach new_slot t → Counted t
Reach-Counted here = new-Counted
Reach-Counted (next r st) = Step-Counted st (Reach-Counted r)
