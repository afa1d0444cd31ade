-- ===== src/Tests/Transcripts.antt =====
-- normalize.go: a transcript in which two turns use one ID, a result has no call, and a call has no
-- result.
use rho_llm.Base.{◌≡◌, refl, Text, text, member, text_eq, decimal, true, false, List, [], ◌∷◌}
use rho_llm.Session.Replay.{Prepared, prepare_turn-Prepared}
use rho_llm.Session.{Session, prepare_turn, role_user, role_assistant}
use rho_llm.Normalize.{
  Turn, Part, tool_use, tool_result, given, thinking, normalize, parts_of, result_ids, fresh_id,
  unique_tool_id, search_id, candidate, forward, normalize_parts, normalize_part, repair, inserted,
  repair_parts,
}
use rho_llm.Normalize.Pairing.{paired}
use rho_llm.Normalize.Answered.{paired-normalize}

abbrev said : Text → List (Part Text) → Turn Text
said stop parts = record {
  role = role_assistant;
  provider = text "p";
  model = text "m";
  stop_reason = stop;
  container_id = [];
  content = parts;
}

abbrev answer : Text → Turn Text
answer id = record {
  role = role_user;
  provider = [];
  model = [];
  stop_reason = [];
  container_id = [];
  content = tool_result id (given (text "42")) ∷ [];
}

abbrev call : Text → Part Text
call id = tool_use id (text "sig") (text "add")

abbrev transcript : List (Turn Text)
transcript =
    answer (text "a")
    ∷ said [] (thinking (text "hm") [] false ∷ call (text "a") ∷ [])
    ∷ answer (text "a")
    ∷ said (text "error") (call (text "b") ∷ [])
    ∷ said [] (call (text "a") ∷ call (text "c") ∷ [])
    ∷ answer (text "a")
    ∷ []

abbrev as_named : Text → Text
as_named t = t

paired-normalize_example :
    paired [] (parts_of (normalize as_named transcript (text "q") (text "m"))) ≡ true
paired-normalize_example = paired-normalize as_named transcript (text "q") (text "m")

second_call : fresh_id (text "a") (text "a" ∷ text "a#1" ∷ []) ≡ text "a#2"
unfolding fresh_id member text_eq unique_tool_id search_id candidate decimal
second_call = refl

-- Two calls of one turn with the same ID: both results go to the second call, and the first call is
-- answered by a synthetic result.
abbrev twice_called : List (Turn Text)
twice_called =
    said [] (call (text "a") ∷ call (text "a") ∷ []) ∷ answer (text "a") ∷ answer (text "a") ∷ []

second_gets_both :
    result_ids (parts_of (normalize as_named twice_called (text "p") (text "m")))
    ≡ text "a" ∷ text "a#1" ∷ text "a#1" ∷ []
unfolding normalize forward normalize_parts normalize_part fresh_id unique_tool_id search_id
    candidate decimal member text_eq repair inserted repair_parts
second_gets_both = refl

abbrev resumed : Session (List (Part Text))
resumed = record {
  messages = transcript;
  client = record { provider = text "q"; model = text "m" };
  base = record { model = []; container_id = []; messages = [] };
}

prepare_turn-Prepared_example :
    Prepared as_named (prepare_turn (normalize as_named) resumed (answer (text "c") ∷ []) false)
prepare_turn-Prepared_example =
    prepare_turn-Prepared as_named resumed (answer (text "c") ∷ []) false
