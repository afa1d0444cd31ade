-- ===== src/Realtime/Session.antt =====
-- realtime.go: RealtimeSession, whose mutex is held for short sections and released around the calls
-- of the connection. A state counts the goroutines between their section and their call's return;
-- any goroutine may go next.
use rho_llm.Base.{
  ℕ, suc, ◌-◌, ◌≡◌, Text, text, is_empty, Bool, true, false, ◌&&◌, not, Option, none, some, List,
  [], ◌∷◌, ◌++◌, if◌then◌else◌, ◌⊎◌, inl, inr,
}
use rho_llm.Errors.{GoError, plain}
use rho_llm.Realtime.{RealtimeEvent, encode_realtime_event}

pub data RealtimeState : Type 0 where
  state_new state_open state_closed : RealtimeState

abbrev pub is_open_state : RealtimeState → Bool
is_open_state state_open = true
is_open_state state_new = false
is_open_state state_closed = false

-- A call of the connection.
pub data ConnCall : Type 0 where
  reads closes : ConnCall
  writes : List (Text × Text) → ConnCall

-- `reading`, `writing` and `closing` are the goroutines that have left their section and are at the
-- connection: in Read, about to Write, about to Close. `calls` is the latest first.
pub record RealtimeSession : Type 0 where
  pub closed : Bool
  pub state : RealtimeState
  pub reading : ℕ
  pub writing : List (List (Text × Text))
  pub closing : ℕ
  pub calls : List ConnCall

abbrev pub is_open : RealtimeSession → Bool
is_open s = is_open_state s.state && not s.closed

-- OpenRealtimeSession's checks, with the configured model, whether a key is wanted and given, and
-- what the dialer returns.
unfoldable pub open_realtime_session :
    Option (Option GoError) → Text → Bool → RealtimeSession ⊎ GoError
open_realtime_session none model key_missing = inr (plain (text "llm: realtime dialer is required"))
open_realtime_session (some dialed) model key_missing =
    if is_empty model
    then inr (plain (text "llm: model is required for realtime"))
    else if key_missing
    then inr (plain (text "llm: API key is required for realtime"))
    else elim dialed [
      | some e ↦ inr e
      | none ↦ inl (record {
        closed = false;
        state = state_open;
        reading = 0;
        writing = [];
        closing = 0;
        calls = [];
      })
    ]

-- The first section of Recv, and the call of Read.
unfoldable pub recv_enter : RealtimeSession → RealtimeSession
recv_enter s =
    if is_open s then record s { reading = suc s.reading; calls = reads ∷ s.calls } else s

-- Recv when Read has returned: the end of the stream closes the session.
unfoldable pub recv_eof : RealtimeSession → RealtimeSession
recv_eof s = record s { reading = s.reading - 1; closed = true; state = state_closed }

unfoldable pub recv_other : RealtimeSession → RealtimeSession
recv_other s = record s { reading = s.reading - 1 }

-- send's section, and then its call of Write.
unfoldable pub send_enter : RealtimeEvent → RealtimeSession → RealtimeSession
send_enter ev s =
    if is_open s then record s { writing = encode_realtime_event ev ∷ s.writing } else s

unfoldable pub send_write :
    List (List (Text × Text)) → List (Text × Text) → RealtimeSession → RealtimeSession
send_write others payload s = record s { writing = others; calls = writes payload ∷ s.calls }

-- Close's section, and then its call of the connection's Close.
unfoldable pub close_enter : RealtimeSession → RealtimeSession
close_enter s =
    if s.closed
    then s
    else record s { closed = true; state = state_closed; closing = suc s.closing }

unfoldable pub close_conn : RealtimeSession → RealtimeSession
close_conn s = record s { closing = s.closing - 1; calls = closes ∷ s.calls }

-- One goroutine's next section or call.
pub data Step : RealtimeSession → RealtimeSession → Type 0 where
  enters_recv : (s : RealtimeSession) → Step s (recv_enter s)
  gets_eof : (s : RealtimeSession) (k : ℕ) → s.reading ≡ suc k → Step s (recv_eof s)
  gets_other : (s : RealtimeSession) (k : ℕ) → s.reading ≡ suc k → Step s (recv_other s)
  enters_send : (s : RealtimeSession) (ev : RealtimeEvent) → Step s (send_enter ev s)
  writes_payload :
      (s : RealtimeSession) (xs ys : List (List (Text × Text))) (p : List (Text × Text))
      → s.writing ≡ xs ++ (p ∷ ys)
      → Step s (send_write (xs ++ ys) p s)
  enters_close : (s : RealtimeSession) → Step s (close_enter s)
  closes_conn : (s : RealtimeSession) (k : ℕ) → s.closing ≡ suc k → Step s (close_conn s)

pub data Steps : RealtimeSession → RealtimeSession → Type 0 where
  here : (s : RealtimeSession) → Steps s s
  then : (r s t : RealtimeSession) → Steps r s → Step s t → Steps r t
