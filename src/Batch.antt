-- ===== src/Batch.antt =====
-- batch.go: the status of a batch, the checks of items and counts, and WaitForBatch.
pub mod Waiting
pub mod Checks
use rho_llm.Base.{
  ℕ, zero, suc, ◌+◌, Text, text, is_empty, Bool, true, false, ◌&&◌, ◌||◌, not, Option, none, some,
  ◌⊎◌, inl, inr, ◌==◌, if◌then◌else◌, ℤ, pos, ◌+ℤ◌, ltb_ℤ, leb_ℤ, text_eq,
}
use rho_llm.Errors.{GoError, plain}
use rho_llm.Usage.{wrap_int64}

pub data BatchStatus : Type 0 where
  batch_queued batch_running batch_completed batch_failed : BatchStatus
  batch_expired batch_cancelling batch_cancelled : BatchStatus

unfoldable pub terminal : BatchStatus → Bool
terminal batch_completed = true
terminal batch_failed = true
terminal batch_expired = true
terminal batch_cancelled = true
terminal _ = false

-- The texts that BatchStatus.valid accepts, and what they stand for.
unfoldable pub status_text : BatchStatus → Text
status_text batch_queued = text "queued"
status_text batch_running = text "running"
status_text batch_completed = text "completed"
status_text batch_failed = text "failed"
status_text batch_expired = text "expired"
status_text batch_cancelling = text "cancelling"
status_text batch_cancelled = text "cancelled"

pub record BatchRequestCounts : Type 0 where
  pub total : ℤ
  pub completed : ℤ
  pub failed : ℤ

-- The part of BatchHandle.Validate on the counts: they are 64-bit ints, and their sum wraps.
unfoldable pub valid_counts : BatchRequestCounts → Bool
valid_counts c = not (
    ltb_ℤ c.total (pos 0)
    || (ltb_ℤ c.completed (pos 0)
        || (ltb_ℤ c.failed (pos 0) || ltb_ℤ c.total (wrap_int64 (c.completed +ℤ c.failed)))))

-- A batch item: which of its payloads are set.
pub record BatchItem : Type 0 where
  pub item_id : Text
  pub request : Bool
  pub embedding : Bool

abbrev count_set : Bool → ℕ
count_set true = 1
count_set false = 0

unfoldable pub validate_item : BatchItem → Option GoError
validate_item i =
    if is_empty i.item_id
    then some (plain (text "llm: batch item has empty item_id"))
    else if count_set i.request + count_set i.embedding == 1
    then none
    else some (plain (text "exactly one of Request or Embedding must be set"))

-- MaxBatchTurnaround: thirty days in nanoseconds.
abbrev pub max_batch_turnaround : ℤ
max_batch_turnaround = pos 2592000000000000

unfoldable pub valid_turnaround : ℤ → Bool
valid_turnaround d = not (leb_ℤ d (pos 0) || ltb_ℤ max_batch_turnaround d)

-- A handle is what Get and the caller pass on; `status` is the one field that the loop reads.
pub record BatchHandle (State : Type 0) : Type 0 where
  pub status : BatchStatus
  pub state : State

-- Round `i` asks Get with the handle at hand; `interrupted i` is ctx.Err() if the context ends
-- while that round waits.
module _ {State : Type 0} (get : ℕ → BatchHandle State → BatchHandle State ⊎ GoError)
    (interrupted : ℕ → Option GoError) where
  abbrev pub Waited : Type 0
  Waited = Option (BatchHandle State) × Option GoError

  abbrev unless_done : Option GoError → BatchHandle State → Option Waited → Option Waited
  unless_done (some e) h later = some (some h, some e)
  unless_done none h later = later

  -- WaitForBatch from round `i` on, for at most `fuel` rounds; none if these do not end it.
  unfoldable pub wait_for_batch :
      ℕ → ℕ → BatchHandle State → Option (BatchHandle State) → Option Waited
  wait_for_batch zero i handle last = none
  wait_for_batch (suc fuel) i handle last = elim (get i handle) [
    | inr e ↦ some (last, some e)
    | inl h ↦
        let later = wait_for_batch fuel (i + 1) h (some h) in
        if terminal h.status then some (some h, none) else unless_done (interrupted i) h later
  ]
