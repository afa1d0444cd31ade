-- ===== src/Session/Pausing.antt =====
-- session.go, pauseturn.go: the continuation of a paused turn.
use rho_llm.Base.{◌≡◌, Text, is_empty, true, List, [], inl, if◌then◌else◌}
use rho_llm.Session.{Message, Request, Session, model_of, prepare_turn}

module _ {Content : Type 0}
    (normalize : List (Message Content) → Text → Text → List (Message Content)) where
  -- Continue sends the whole transcript, normalized for the client and the model, in this container
  -- unless the base request has one.
  abbrev pub Continues : Session Content → Text → Type 0
  Continues s container =
      (req : Request Content) × (prepare_turn normalize s [] true ≡ inl (req, s.client))
      × (req.messages ≡ normalize s.messages s.client.provider (model_of normalize s))
      × (req.container_id
          ≡ (if is_empty s.base.container_id then container else s.base.container_id))
