-- ===== src/Realtime/Closing.antt =====
-- realtime.go: how often the connection is closed, and what still reaches it afterwards.
use rho_llm.Base.{
  ℕ, suc, ◌+◌, ◌≤◌, ◌≡◌, refl, ap, ◌∙◌, true, false, List, [], ◌∷◌, length, length-append_cons,
  arith,
}
use rho_llm.Realtime.Session.{
  RealtimeSession, ConnCall, reads, writes, closes, Step, enters_recv, gets_eof, gets_other,
  enters_send, writes_payload, enters_close, closes_conn, Steps, here, then, recv_enter, recv_eof,
  recv_other, send_enter, send_write, close_enter, close_conn,
}

abbrev pub close_count : List ConnCall → ℕ
close_count [] = 0
close_count (closes ∷ cs) = suc (close_count cs)
close_count (reads ∷ cs) = close_count cs
close_count (writes p ∷ cs) = close_count cs

abbrev pub read_count : List ConnCall → ℕ
read_count [] = 0
read_count (closes ∷ cs) = read_count cs
read_count (reads ∷ cs) = suc (read_count cs)
read_count (writes p ∷ cs) = read_count cs

abbrev pub write_count : List ConnCall → ℕ
write_count [] = 0
write_count (closes ∷ cs) = write_count cs
write_count (reads ∷ cs) = write_count cs
write_count (writes p ∷ cs) = suc (write_count cs)

-- The connection's closings, made or about to be made: none while the session is open, and one at
-- most.
abbrev closings : RealtimeSession → ℕ
closings s = s.closing + close_count s.calls

record Once (s : RealtimeSession) : Type 0 where
  none_open : s.closed ≡ false → closings s ≡ 0
  one : closings s ≤ 1

Step-Once : {s t : RealtimeSession} → Step s t → Once s → Once t
unfolding recv_enter recv_eof recv_other send_enter send_write close_enter close_conn
Step-Once (enters_recv s) o = ground arith
Step-Once (gets_eof s k e) o = ground arith
Step-Once (gets_other s k e) o = ground arith
Step-Once (enters_send s ev) o = ground arith
Step-Once (writes_payload s xs ys p e) o = ground arith
Step-Once (enters_close s) o = ground arith
Step-Once (closes_conn s k e) o = ground arith

-- A closed session starts nothing: what is left is what its goroutines had begun.
Step-closed :
    {s t : RealtimeSession}
    → Step s t
    → s.closed ≡ true
    → (t.closed ≡ true)
      × ((closings t ≡ closings s)
          × ((read_count t.calls ≡ read_count s.calls)
              × (write_count t.calls + length t.writing ≡ write_count s.calls + length s.writing)))
unfolding recv_enter recv_eof recv_other send_enter send_write close_enter close_conn
Step-closed (enters_recv s) o = ground arith
Step-closed (gets_eof s k e) o = ground arith
Step-closed (gets_other s k e) o = ground arith
Step-closed (enters_send s ev) o = ground arith
Step-closed (writes_payload s xs ys p e) o = ground (arith, length-append_cons xs ys p, ap length e)
Step-closed (enters_close s) o = ground arith
Step-closed (closes_conn s k e) o = ground arith

Steps-Once : {s t : RealtimeSession} → Steps s t → Once s → Once t
Steps-Once (here s) o = o
Steps-Once (then r s t ss st) o = Step-Once st (Steps-Once ss o)

Steps-closed :
    {s t : RealtimeSession}
    → Steps s t
    → s.closed ≡ true
    → (t.closed ≡ true)
      × ((closings t ≡ closings s)
          × ((read_count t.calls ≡ read_count s.calls)
              × (write_count t.calls + length t.writing ≡ write_count s.calls + length s.writing)))
Steps-closed (here s) o = (o, (refl, (refl, refl)))
Steps-closed (then r s t ss st) o =
    let (c, (a, (b, d))) = Steps-closed ss o in
    let (c', (a', (b', d'))) = Step-closed st c in (c', (a' ∙ a, (b' ∙ b, d' ∙ d)))

-- A session that no goroutine uses yet.
pub record Fresh (s : RealtimeSession) : Type 0 where
  pub still_open : s.closed ≡ false
  pub unused_reads : s.reading ≡ 0
  pub unclosed : s.closing ≡ 0
  pub no_calls : s.calls ≡ []

Fresh-Once : (s : RealtimeSession) → Fresh s → Once s
Fresh-Once s f = record {
  none_open = λ e. omega (arith, f.unclosed, ap close_count f.no_calls);
  one = omega (arith, f.unclosed, ap close_count f.no_calls);
}

-- However the goroutines of a new session interleave, its connection is closed at most once.
pub closes_once : (s t : RealtimeSession) → Fresh s → Steps s t → close_count t.calls ≤ 1
closes_once s t f ss = omega (arith, (Steps-Once ss (Fresh-Once s f)).one)

-- Once a session is closed, no Read reaches its connection any more, and no more Writes than the
-- goroutines were about to make.
pub closed_quiesces :
    (s t : RealtimeSession)
    → s.closed ≡ true
    → Steps s t
    → (read_count t.calls ≡ read_count s.calls)
      × (write_count t.calls ≤ write_count s.calls + length s.writing)
closed_quiesces s t c ss = let (d, (e, (r, w))) = Steps-closed ss c in (r, omega (arith, w))

-- When Recv meets the end of the stream in a session that is still open, whatever its goroutines did
-- before, nothing that follows closes the connection, Close included.
pub eof_never_closes :
    (s t u : RealtimeSession)
    → Fresh s
    → Steps s t
    → t.closed ≡ false
    → Steps (recv_eof t) u
    → close_count u.calls ≡ 0
unfolding recv_eof
eof_never_closes s t u f ss o us =
    let (d, (e, more)) = Steps-closed us refl in
    omega (arith, e, (Steps-Once ss (Fresh-Once s f)).none_open o)
