-- ===== src/Session/Replay.antt =====
-- session.go with normalize.go: the requests that a Session sends.
use rho_llm.Base.{
  ◌≡◌, Text, is_empty, Bool, true, false, Option, none, some, List, [], ◌++◌, ◌⊎◌, inl, inr,
  if_case,
}
use rho_llm.Errors.{GoError}
use rho_llm.Normalize.{Turn, Part, normalize, parts_of, result_ids}
use rho_llm.Normalize.Pairing.{paired}
use rho_llm.Normalize.Answered.{all_answered, paired-normalize, all_answered-normalize}
use rho_llm.Session.{
  Session, Request, Client, turn_request, prepare_turn, paused_turn, keep_container, err_not_paused,
  model_of,
}

module _ {Body : Type 0} (resolve_alias : Text → Text) where
  -- No tool call has the ID of an earlier one, each result follows its call, and each call of an
  -- assistant's turn has a result, unless the call has no ID.
  abbrev pub Replayable : Request (List (Part Body)) → Type 0
  Replayable req =
      (paired [] (parts_of req.messages) ≡ true)
      × (all_answered (result_ids (parts_of req.messages)) req.messages ≡ true)

  abbrev pub Prepared : (Request (List (Part Body)) × Client) ⊎ GoError → Type 0
  Prepared (inl (req, c)) = Replayable req
  Prepared (inr e) = Unit

  turn_request-Replayable :
      (s : Session (List (Part Body))) (msgs : List (Turn Body))
      → Replayable (turn_request (normalize resolve_alias) s msgs)
  unfolding turn_request
  turn_request-Replayable s msgs = (
    paired-normalize resolve_alias (s.messages ++ msgs) s.client.provider
        (model_of (normalize resolve_alias) s),
    all_answered-normalize resolve_alias (s.messages ++ msgs) s.client.provider
        (model_of (normalize resolve_alias) s),
  )

  keep_container-Replayable :
      (req : Request (List (Part Body))) (container : Text)
      → Replayable req
      → Replayable (keep_container req container)
  unfolding keep_container
  keep_container-Replayable req container r = if_case Replayable (is_empty req.container_id) r r

  -- Whatever a Session's transcript and the messages of a turn, the request that it prepares for its
  -- client is replayable: no tool call has the ID of an earlier one, each tool result follows its
  -- call, and each tool call of an assistant's turn whose ID is not empty has a result.
  pub prepare_turn-Prepared :
      (s : Session (List (Part Body))) (msgs : List (Turn Body)) (continuation : Bool)
      → Prepared (prepare_turn (normalize resolve_alias) s msgs continuation)
  unfolding prepare_turn
  prepare_turn-Prepared s msgs false = turn_request-Replayable s msgs
  prepare_turn-Prepared s msgs true = go (paused_turn s.messages)
    where
      go :
          (o : Option Text)
          → Prepared (elim o as (λ _. (Request (List (Part Body)) × Client) ⊎ GoError) [
            | none ↦ inr err_not_paused
            | some container ↦
                inl (
                  keep_container (turn_request (normalize resolve_alias) s msgs) container,
                  s.client,
                )
          ])
      go none = tt
      go (some container) =
          keep_container-Replayable (turn_request (normalize resolve_alias) s msgs) container
            (turn_request-Replayable s msgs)
