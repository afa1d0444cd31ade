-- ===== src/RefCount.antt =====
-- pool.go: refCountedClient, a client closed when its last reference is released.
pub mod Lifecycle
use rho_llm.Base.{
  ℕ, zero, suc, ◌≡◌, ◌+◌, Bool, true, false, Option, none, some, ℤ, pos, ◌+ℤ◌, ◌-ℤ◌, if◌then◌else◌,
}

-- `refs` is the atomic counter, `once_done` the sync.Once, `closes` counts the calls of the
-- client's Close.
pub record RefCountedClient : Type 0 where
  pub refs : ℤ
  pub once_done : Bool
  pub closes : ℕ

unfoldable pub new_ref_counted_client : RefCountedClient
new_ref_counted_client = record { refs = pos 1; once_done = false; closes = 0 }

-- refs.Add(-1) == 0.
abbrev pub is_zero : ℤ → Bool
is_zero (ℤ.pos zero) = true
is_zero _ = false

unfoldable pub acquire : RefCountedClient → RefCountedClient
acquire rc = record rc { refs = rc.refs +ℤ pos 1 }

unfoldable pub close_once : RefCountedClient → RefCountedClient
close_once rc = if rc.once_done then rc else record rc { once_done = true; closes = suc rc.closes }

unfoldable pub release : RefCountedClient → RefCountedClient
unfolding close_once
release rc =
    let less = record rc { refs = rc.refs -ℤ pos 1 } in
    if is_zero less.refs then close_once less else less

-- The pool's slot for a client, and the requests in flight on it. `rc` is nil once the pool has
-- swapped or closed it; a request acquires only a client that is still in the slot.
pub record Slot : Type 0 where
  pub client : RefCountedClient
  pub in_pool : Bool
  pub in_flight : ℕ

pub data Step (s : Slot) : Slot → Type 0 where
  enter :
      s.in_pool ≡ true
      → Step s (record s { client = acquire s.client; in_flight = suc s.in_flight })
  leave :
      (n : ℕ) → s.in_flight ≡ suc n → Step s (record s { client = release s.client; in_flight = n })
  retire : s.in_pool ≡ true → Step s (record s { client = release s.client; in_pool = false })

pub data Reach (s : Slot) : Slot → Type 0 where
  here : Reach s s
  next : {t u : Slot} → Reach s t → Step t u → Reach s u

unfoldable pub new_slot : Slot
new_slot = record { client = new_ref_counted_client; in_pool = true; in_flight = 0 }
