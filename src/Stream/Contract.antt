-- ===== src/Stream/Contract.antt =====
-- streamevents.go: the contract of iter.Seq2, under any consumer.
use rho_llm.Base.{
  ◌≡◌, refl, ◌⊎◌, inl, inr, Bool, true, false, Bool-cases, List, [], ◌∷◌, ◌++◌, none, some,
  if◌then◌else◌,
}
use rho_llm.Stream.{
  Item, Consumer, Block, close_block, bracket, yield_all, run_boundaries, stream_with_boundaries,
}

-- Each item was given to a consumer that had just asked for more, or was the first.
abbrev pub Heeds : Consumer → List Item → Type 0
Heeds c [] = Unit
Heeds c (it ∷ delivered) = ((delivered ≡ []) ⊎ (c delivered ≡ true)) × Heeds c delivered

abbrev Ready : Consumer → List Item → Type 0
Ready c delivered = (delivered ≡ []) ⊎ (c delivered ≡ true)

yield_all-Heeds :
    (c : Consumer) (items delivered : List Item)
    → Heeds c delivered
    → Ready c delivered
    → let r = yield_all c items delivered in Heeds c r.1 × (r.0 ≡ true → Ready c r.1)
unfolding yield_all
yield_all-Heeds c [] delivered h ready = (h, λ p. ready)
yield_all-Heeds c (it ∷ rest) delivered h ready = elim (Bool-cases (c (it ∷ delivered))) [
  | inl p ↦ rw p (yield_all-Heeds c rest (it ∷ delivered) (ready, h) (inr p))
  | inr p ↦ rw p ((ready, h), λ q. cc)
]

run_boundaries-Heeds :
    (c : Consumer) (b : Block) (seq delivered : List Item)
    → Heeds c delivered
    → Ready c delivered
    → Heeds c (run_boundaries c b seq delivered)
unfolding run_boundaries
run_boundaries-Heeds c b [] delivered h ready =
    (yield_all-Heeds c (close_block b) delivered h ready).0
run_boundaries-Heeds c b ((ev, some err) ∷ rest) delivered h ready =
    (yield_all-Heeds c (close_block b ++ (ev, some err) ∷ []) delivered h ready).0
run_boundaries-Heeds c b ((ev, none) ∷ rest) delivered h ready =
    next (yield_all c items delivered) (yield_all-Heeds c items delivered h ready)
      (λ now k r. run_boundaries-Heeds c after rest now k r)
  where
    items : List Item
    items = (bracket b ev.event_type (ev, none)).0

    after : Block
    after = (bracket b ev.event_type (ev, none)).1

    next :
        (r : Bool × List Item)
        → Heeds c r.1 × (r.0 ≡ true → Ready c r.1)
        → ((now : List Item)
            → Heeds c now
            → Ready c now
            → Heeds c (run_boundaries c after rest now))
        → Heeds c (if r.0 then run_boundaries c after rest r.1 else r.1)
    next (true, now) (k, go) on = on now k (go refl)
    next (false, now) (k, go) on = k

-- Whenever the consumer answers that it wants no more, nothing is yielded to it again: not the
-- end of the open block, not the error, not the next event.
pub stream_with_boundaries-Heeds :
    (seq : List Item) (c : Consumer) → Heeds c (stream_with_boundaries seq c)
unfolding stream_with_boundaries
stream_with_boundaries-Heeds seq c = run_boundaries-Heeds c Block.no_block seq [] tt (inl refl)
