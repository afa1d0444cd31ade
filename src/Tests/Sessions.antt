-- ===== src/Tests/Sessions.antt =====
-- session.go and batch.go: runs at concrete inputs.
use rho_llm.Base.{
  ℕ, zero, suc, ◌≡◌, refl, ◌⊎◌, inl, inr, ◌++◌, Text, text, true, false, Option, none, some, List,
  [], ◌∷◌, pos, ◌+ℤ◌, ◌-ℤ◌, subst,
}
use rho_llm.Errors.{GoError}
use rho_llm.Session.{
  Message, Reply, Session, role_user, Answers, sends, appends, session_run, stop_pause_turn,
}
use rho_llm.Session.Transcript.{log_of, session_run-log}
use rho_llm.Batch.{
  BatchRequestCounts, valid_counts, BatchItem, BatchHandle, BatchStatus, batch_running,
  batch_completed, terminal,
}
use rho_llm.Batch.Waiting.{Returns, Ends, wait_for_batch_lem}

abbrev as_is : List (Message Text) → Text → Text → List (Message Text)
as_is msgs provider model = msgs

abbrev session : Session Text
session = record {
  messages = [];
  client = record { provider = text "p"; model = text "m" };
  base = record { model = []; container_id = []; messages = [] };
}

abbrev question : Message Text
question = record {
  role = role_user;
  provider = [];
  model = [];
  stop_reason = [];
  container_id = [];
  content = text "hi";
}

abbrev paused_reply : Reply Text
paused_reply = record {
  model = text "m";
  stop_reason = stop_pause_turn;
  container_id = text "box";
  content = text "so";
}

-- A provider whose turn is paused, and a switch to another client while it runs.
abbrev pauses : Answers as_is
pauses c req = (inl (some paused_reply), record { provider = text "q"; model = text "n" })

session_run-log_example :
    (session_run as_is session
      (sends (question ∷ []) false pauses ∷ appends (question ∷ []) ∷ [])).messages
    ≡ session.messages
      ++ log_of as_is session (sends (question ∷ []) false pauses ∷ appends (question ∷ []) ∷ [])
session_run-log_example =
    session_run-log as_is session
      (sends (question ∷ []) false pauses ∷ appends (question ∷ []) ∷ [])

abbrev counts : BatchRequestCounts
counts = record { total = pos 3; completed = pos 2; failed = pos 1 }

-- The sum of the counts wraps around, and the check lets these pass.
overflow :
    valid_counts (record {
      total = pos 0;
      completed = pos 9223372036854775807;
      failed = pos 9223372036854775807;
    })
    ≡ true
unfolding valid_counts ◌+ℤ◌ ◌-ℤ◌
overflow = refl

abbrev both : BatchItem
both = record { item_id = text "a"; request = true; embedding = true }

abbrev handle_in : BatchStatus → BatchHandle ℕ
handle_in s = record { status = s; state = 0 }

-- A batch that is done at the second poll.
abbrev polled : ℕ → BatchHandle ℕ → BatchHandle ℕ ⊎ GoError
polled zero h = inl (handle_in batch_running)
polled (suc i) h = inl (handle_in batch_completed)

abbrev no_interrupt : ℕ → Option GoError
no_interrupt i = none

abbrev unwrap : BatchHandle ℕ ⊎ GoError → BatchHandle ℕ
unwrap (inl x) = x
unwrap (inr e) = handle_in batch_running

done_by_one : Ends polled no_interrupt 1
unfolding terminal
done_by_one handle h p q = subst (λ x. terminal (unwrap x).status ≡ true) p refl

wait_for_batch_lem_example : Returns polled no_interrupt 2 0 (handle_in batch_running) none
wait_for_batch_lem_example =
    wait_for_batch_lem polled no_interrupt 1 (handle_in batch_running) done_by_one
