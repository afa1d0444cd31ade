-- ===== src/Session/Transcript.antt =====
-- session.go: the transcript, as a log of turns.
use rho_llm.Base.{
  append_assoc, ◌≡◌, refl, ap, ◌∙◌, Text, Bool, true, false, Option, none, some, List, [], ◌∷◌,
  ◌++◌, ◌⊎◌, inl, inr,
}
use rho_llm.Errors.{GoError}
use rho_llm.Session.{
  Message, Reply, Request, Client, Session, err_not_paused, assistant_message, paused_turn,
  keep_container, turn_request, prepare_turn, commit_turn, Answers, settle_turn, send, SessionCall,
  sends, appends, switches, session_step, session_run,
}

append_nil : {A : Type 0} (xs : List A) → xs ≡ xs ++ []
append_nil [] = refl
append_nil (x ∷ xs) = ap (◌∷◌ x) (append_nil xs)

module _ {Content : Type 0}
    (normalize : List (Message Content) → Text → Text → List (Message Content)) where
  -- What one call should add to the transcript: a turn that succeeds adds its input and the
  -- reply that Send returned, stamped with the provider it started with; a turn that fails nothing.
  abbrev pub recorded_turn :
      Session Content → List (Message Content) → Reply Content ⊎ GoError → List (Message Content)
  recorded_turn s msgs (inr e) = []
  recorded_turn s msgs (inl r) = msgs ++ assistant_message s.client.provider r ∷ []

  abbrev pub added : Session Content → SessionCall normalize → List (Message Content)
  added s (sends msgs continuation complete) =
      recorded_turn s msgs (send normalize s msgs continuation complete).0
  added s (appends msgs) = msgs
  added s (switches c) = []

  abbrev pub log_of : Session Content → List (SessionCall normalize) → List (Message Content)
  log_of s [] = []
  log_of s (c ∷ cs) = added s c ++ log_of (session_step normalize s c) cs

  settle_turn-log :
      (s : Session Content) (msgs : List (Message Content)) (req : Request Content)
      (x : (Option (Reply Content) ⊎ GoError) × Client)
      → let out = settle_turn normalize s msgs req s.client.provider x in
        out.1.messages ≡ s.messages ++ recorded_turn s msgs out.0
  unfolding settle_turn commit_turn
  settle_turn-log s msgs req (inr e, now) = append_nil s.messages
  settle_turn-log s msgs req (inl none, now) = append_nil s.messages
  settle_turn-log s msgs req (inl (some r), now) = append_assoc s.messages msgs _

  pub send-log :
      (s : Session Content) (msgs : List (Message Content)) (continuation : Bool)
      (complete : Answers normalize)
      → let out = send normalize s msgs continuation complete in
        out.1.messages ≡ s.messages ++ recorded_turn s msgs out.0
  unfolding send prepare_turn
  send-log s msgs false complete =
      settle_turn-log s msgs (turn_request normalize s msgs)
        (complete s.client (turn_request normalize s msgs))
  send-log s msgs true complete = paused (paused_turn s.messages)
    where
      req : Text → Request Content
      req container = keep_container (turn_request normalize s msgs) container

      paused :
          (o : Option Text)
          → let turn : (Request Content × Client) ⊎ GoError = elim o [
            | none ↦ inr err_not_paused
            | some container ↦ inl (req container, s.client)
          ] in
            let out : (Reply Content ⊎ GoError) × Session Content = elim turn [
              | inr e ↦ (inr e, s)
              | inl t ↦ settle_turn normalize s msgs t.0 t.1.provider (complete t.1 t.0)
            ] in
            out.1.messages ≡ s.messages ++ recorded_turn s msgs out.0
      paused none = append_nil s.messages
      paused (some c) = settle_turn-log s msgs (req c) (complete s.client (req c))

  step-log :
      (s : Session Content) (c : SessionCall normalize)
      → (session_step normalize s c).messages ≡ s.messages ++ added s c
  unfolding session_step
  step-log s (sends msgs continuation complete) = send-log s msgs continuation complete
  step-log s (appends msgs) = refl
  step-log s (switches c) = append_nil s.messages

  -- Over any calls, the transcript only grows: it is the one at the start followed by what each call
  -- adds, in order. A turn is recorded whole, its input and its reply, exactly if Send returned the
  -- reply; a turn that fails in any way leaves no trace; a switch of the client while the turn runs
  -- does not change the provider that the reply is recorded with.
  pub session_run-log :
      (s : Session Content) (cs : List (SessionCall normalize))
      → (session_run normalize s cs).messages ≡ s.messages ++ log_of s cs
  unfolding session_run
  session_run-log s [] = append_nil s.messages
  session_run-log s (c ∷ cs) =
      session_run-log (session_step normalize s c) cs
      ∙ ap (λ ms. ms ++ log_of (session_step normalize s c) cs) (step-log s c)
      ∙ append_assoc s.messages (added s c) (log_of (session_step normalize s c) cs)
