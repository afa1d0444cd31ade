-- ===== src/Session.antt =====
-- session.go, pauseturn.go, and the parts of conversation.go and types.go that they use.
-- Turns are serialized by turnMu, so one operation at a time changes the transcript; while a turn
-- waits for its provider, other goroutines can only switch the client. Usage totals and the tool
-- set are not followed. `normalize` is any function in the place of NormalizeForModel, and the content
-- of a message is any type; Replay takes the modelled one.
pub mod Transcript
pub mod Pausing
pub mod Replay
use rho_llm.Base.{
  Text, text, text_eq, is_empty, Bool, true, false, ◌&&◌, not, Option, none, some, List, [], ◌∷◌,
  ◌++◌, ◌⊎◌, inl, inr, if◌then◌else◌,
}
use rho_llm.Errors.{GoError, plain}

pub data Role : Type 0 where
  role_user role_assistant role_system : Role

abbrev pub is_assistant : Role → Bool
is_assistant role_assistant = true
is_assistant _ = false

abbrev pub stop_pause_turn : Text
stop_pause_turn = text "pause_turn"

pub record Message (Content : Type 0) : Type 0 where
  pub role : Role
  pub provider : Text
  pub model : Text
  pub stop_reason : Text
  pub container_id : Text
  pub content : Content

-- A response, with the content that NewAssistantMessage assembles from it.
pub record Reply (Content : Type 0) : Type 0 where
  pub model : Text
  pub stop_reason : Text
  pub container_id : Text
  pub content : Content

pub record Request (Content : Type 0) : Type 0 where
  pub model : Text
  pub container_id : Text
  pub messages : List (Message Content)

pub record Client : Type 0 where
  pub provider : Text
  pub model : Text

pub record Session (Content : Type 0) : Type 0 where
  pub messages : List (Message Content)
  pub client : Client
  pub base : Request Content

abbrev pub err_not_paused : GoError
err_not_paused = plain (text "llm: the last turn is not paused (stop reason is not pause_turn)")

module _ {Content : Type 0} where
  -- NewAssistantMessage, and the provider that AddResponse stamps on it.
  unfoldable pub assistant_message : Text → Reply Content → Message Content
  assistant_message provider r = record {
    role = role_assistant;
    provider = provider;
    model = r.model;
    stop_reason = r.stop_reason;
    container_id = r.container_id;
    content = r.content;
  }

  abbrev pub last_message : List (Message Content) → Option (Message Content)
  last_message [] = none
  last_message (x ∷ []) = some x
  last_message (x ∷ y ∷ ys) = last_message (y ∷ ys)

  -- pausedTurn: the container of the paused turn, if the last message is one.
  unfoldable pub paused_turn : List (Message Content) → Option Text
  paused_turn msgs = elim (last_message msgs) [
    | none ↦ none
    | some last ↦
        if is_assistant last.role && text_eq last.stop_reason stop_pause_turn
        then some last.container_id
        else none
  ]

  unfoldable pub keep_container : Request Content → Text → Request Content
  keep_container req container =
      if is_empty req.container_id then record req { container_id = container } else req

  module _ (normalize : List (Message Content) → Text → Text → List (Message Content)) where
    abbrev pub model_of : Session Content → Text
    model_of s = if is_empty s.base.model then s.client.model else s.base.model

    -- ToRequest, with the model and the messages of the turn.
    unfoldable pub turn_request : Session Content → List (Message Content) → Request Content
    turn_request s msgs = record s.base {
      model = model_of s;
      messages = normalize (s.messages ++ msgs) s.client.provider (model_of s);
    }

    unfoldable pub prepare_turn :
        Session Content → List (Message Content) → Bool → (Request Content × Client) ⊎ GoError
    prepare_turn s msgs false = inl (turn_request s msgs, s.client)
    prepare_turn s msgs true = elim (paused_turn s.messages) [
      | none ↦ inr err_not_paused
      | some container ↦ inl (keep_container (turn_request s msgs) container, s.client)
    ]

    unfoldable pub commit_turn :
        Session Content → List (Message Content) → Text → Reply Content → Session Content
    commit_turn s msgs provider r = record s {
      messages = (s.messages ++ msgs) ++ assistant_message provider r ∷ [];
    }

    -- A client's answer: a response, a nil response, or an error; and the session's client by then.
    abbrev pub Answers : Type 0
    Answers = Client → Request Content → (Option (Reply Content) ⊎ GoError) × Client

    -- The quoted provider is one that %q prints as it is.
    unfoldable pub nil_response : Text → GoError
    nil_response provider =
        plain
          (text "llm: client \"" ++ (provider ++ text "\" returned a nil response and nil error"))

    unfoldable pub stamped : Request Content → Reply Content → Reply Content
    stamped req r = if is_empty r.model then record r { model = req.model } else r

    unfoldable pub settle_turn :
        Session Content
        → List (Message Content)
        → Request Content
        → Text
        → (Option (Reply Content) ⊎ GoError) × Client
        → (Reply Content ⊎ GoError) × Session Content
    settle_turn s msgs req provider (inr e, now) = (inr e, record s { client = now })
    settle_turn s msgs req provider (inl none, now) =
        (inr (nil_response provider), record s { client = now })
    settle_turn s msgs req provider (inl (some r), now) =
        (inl (stamped req r), commit_turn (record s { client = now }) msgs provider (stamped req r))

    unfoldable pub send :
        Session Content
        → List (Message Content)
        → Bool
        → Answers
        → (Reply Content ⊎ GoError) × Session Content
    send s msgs continuation complete = elim (prepare_turn s msgs continuation) [
      | inr e ↦ (inr e, s)
      | inl turn ↦ settle_turn s msgs turn.0 turn.1.provider (complete turn.1 turn.0)
    ]

    pub data SessionCall : Type 0 where
      sends : List (Message Content) → Bool → Answers → SessionCall
      appends : List (Message Content) → SessionCall
      switches : Client → SessionCall

    unfoldable pub session_step : Session Content → SessionCall → Session Content
    session_step s (sends msgs continuation complete) = (send s msgs continuation complete).1
    session_step s (appends msgs) = record s { messages = s.messages ++ msgs }
    session_step s (switches c) = record s { client = c }

    unfoldable pub session_run : Session Content → List SessionCall → Session Content
    session_run s [] = s
    session_run s (c ∷ cs) = session_run (session_step s c) cs
