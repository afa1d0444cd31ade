-- ===== src/Batch/Checks.antt =====
-- batch.go: what the checks accept.
use rho_llm.Base.{◌≡◌, ◌↔◌, ◌⊎◌, true, false, none, pos, ◌≤ℤ◌, ◌+ℤ◌, ◌-ℤ◌, is_empty, arith}
use rho_llm.Batch.{BatchRequestCounts, valid_counts, BatchItem, validate_item}

-- Counts below 2^62 in size are accepted exactly if none is negative and the completed and the
-- failed requests together are no more than the total.
pub valid_counts_lem :
    (c : BatchRequestCounts)
    → c.completed ≤ℤ pos 4611686018427387904
    → c.failed ≤ℤ pos 4611686018427387903
    → (valid_counts c ≡ true) ↔ (
        (pos 0 ≤ℤ c.total)
        × (pos 0 ≤ℤ c.completed)
        × (pos 0 ≤ℤ c.failed)
        × (c.completed +ℤ c.failed ≤ℤ c.total))
unfolding valid_counts ◌+ℤ◌ ◌-ℤ◌
valid_counts_lem c h k = ground arith

-- An item is accepted exactly if it has an ID and one payload, not none and not both.
pub validate_item_lem :
    (i : BatchItem)
    → (validate_item i ≡ none) ↔ (
        (is_empty i.item_id ≡ false)
        × (((i.request ≡ true) × (i.embedding ≡ false))
            ⊎ ((i.request ≡ false) × (i.embedding ≡ true))))
unfolding validate_item
validate_item_lem i = ground arith
