-- ===== src/Tests/Realtimes.antt =====
-- realtime.go: a message, and a session whose two goroutines both close it, or whose stream ends.
use rho_llm.Base.{◌≡◌, refl, Text, text, false, some, [], ◌⊎◌, inl}
use rho_llm.Errors.{GoError}
use rho_llm.Realtime.{Wire, decode_realtime_event}
use rho_llm.Realtime.Codec.{Decodes, decode_realtime_event-Decodes}
use rho_llm.Realtime.Session.{
  RealtimeSession, state_open, Steps, here, then, enters_recv, enters_close, closes_conn,
  recv_enter, recv_eof, close_enter, close_conn,
}
use rho_llm.Realtime.Closing.{Fresh, close_count, eof_never_closes}

abbrev unmarshal_error : Text → Wire ⊎ GoError
unmarshal_error raw = inl (record {
  type_name = text "error";
  event_id = [];
  delta = [];
  audio = [];
  error = some ([], text "rate_limit");
})

decode_realtime_event-Decodes_example :
    Decodes unmarshal_error (text "{}") (decode_realtime_event unmarshal_error (text "{}"))
decode_realtime_event-Decodes_example = decode_realtime_event-Decodes unmarshal_error (text "{}")

abbrev opened : RealtimeSession
opened = record {
  closed = false;
  state = state_open;
  reading = 0;
  writing = [];
  closing = 0;
  calls = [];
}

opened-Fresh : Fresh opened
opened-Fresh = record { still_open = refl; unused_reads = refl; unclosed = refl; no_calls = refl }

abbrev twice_closed : RealtimeSession
twice_closed = close_conn (close_enter (close_enter opened))

both_close : Steps opened twice_closed
unfolding close_enter close_conn
both_close =
    then opened (close_enter (close_enter opened)) twice_closed
      (then opened (close_enter opened) (close_enter (close_enter opened))
        (then opened opened (close_enter opened) (here opened) (enters_close opened))
        (enters_close (close_enter opened)))
      (closes_conn (close_enter (close_enter opened)) 0 refl)

abbrev receiving : RealtimeSession
receiving = recv_enter opened

abbrev ended : RealtimeSession
ended = recv_eof receiving

abbrev closed_after : RealtimeSession
closed_after = close_enter ended

starts_recv : Steps opened receiving
starts_recv = then opened opened receiving (here opened) (enters_recv opened)

close_follows : Steps ended closed_after
close_follows = then ended ended closed_after (here ended) (enters_close ended)

still_open : receiving.closed ≡ false
unfolding recv_enter
still_open = refl

eof_never_closes_example : close_count closed_after.calls ≡ 0
eof_never_closes_example =
    eof_never_closes opened receiving closed_after opened-Fresh starts_recv still_open close_follows
