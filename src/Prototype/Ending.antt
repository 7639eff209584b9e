-- ===== src/Prototype/Ending.antt =====
-- How a session of the first programs ends.
use quic_web_rtc_like.Base.{
  ℕ, zero, suc, ◌-◌, ◌≤◌, ◌<◌, ◌≡◌, sym, ◌∙◌, true, false, some, List, [], ◌∷◌, ℤ, minus_one, eqb_ℤ,
  arith, length,
}
use quic_web_rtc_like.Sys.{
  Os, Trace, Timeval, Errno, got, ready, not_ready, is_in, waited, perform, close, send_to, receive,
  read,
}
use quic_web_rtc_like.Chownat.Msg
use quic_web_rtc_like.Prototype.{
  Ends, State, Ran, goes, exits, out_of_fuel, hear, reset, close_sock, and_then,
}
use quic_web_rtc_like.Prototype.Client
use quic_web_rtc_like.Prototype.Server
use quic_web_rtc_like.Prototype.Server.{disconnect_rounds, chownat_disconnect, end_session, on_udp}

-- From some point of the history on, no descriptor becomes readable.
abbrev pub FallsSilent : Os → ℕ → Type 0
FallsSilent os n =
    (t : Trace) (fds : List ℤ) (tv : Timeval) → n ≤ length t → os.select t fds (some tv) ≡ ready []

-- What a disconnection leaves as it is.
abbrev pub Alike : State → Ran → Type 0
Alike s (goes x) = (x.id ≡ s.id) × (x.expected ≡ s.expected) × (x.sock ≡ s.sock)
Alike s (exits t) = ⊥
Alike s (out_of_fuel t) = ⊥

disconnect_rounds-Alike :
    (os : Os) (e : Ends) (n fuel : ℕ) (s : State)
    → FallsSilent os n
    → n - length s.trace < fuel
    → Alike s (disconnect_rounds os e fuel s)
unfolding disconnect_rounds
disconnect_rounds-Alike os e n zero s silent enough = absurd (omega arith)
disconnect_rounds-Alike os e n (suc f) s silent enough =
    let tv : Timeval = record { tv_sec = 2; tv_usec = 0 } in
    let r = os.select s.trace (e.chownat ∷ []) (some tv) in
    let heard = hear os e s.bye (waited (e.chownat ∷ []) (some tv) r ∷ s.trace) in
    let rest =
      disconnect_rounds-Alike os e n f (record s { bye = heard.0; trace = heard.1 }) silent in
    ground (arith, silent s.trace (e.chownat ∷ []) tv, rest)

-- The disconnection of the first server ends, with its numbers and its socket as they were, if no
-- descriptor becomes readable once the history has n events: a fuel above n suffices.
pub chownat_disconnect-Alike :
    (os : Os) (e : Ends) (n fuel : ℕ) (s : State)
    → FallsSilent os n
    → n < fuel
    → Alike s (chownat_disconnect os e fuel s)
unfolding chownat_disconnect
chownat_disconnect-Alike os e n fuel s silent enough =
    let asked = record s {
      trace = (perform os (send_to e.chownat Msg.close_request e.dst) s.trace).1;
    } in
    ground (arith, disconnect_rounds-Alike os e n fuel asked silent (omega arith))

-- The server's end of a session.
abbrev pub Ended : Ran → Type 0
Ended (goes x) = (x.id ≡ 0) × (x.expected ≡ 0) × (x.sock ≡ minus_one)
Ended (exits t) = ⊥
Ended (out_of_fuel t) = ⊥

-- The client's keep-alive, received by the first server, ends the session: the server goes on
-- without a socket and with both numbers at 0, if no descriptor becomes readable once the history
-- has n events and the fuel is above n.
pub keep_alive_ends_session :
    (os : Os) (e : Ends) (n fuel : ℕ) (s : State)
    → FallsSilent os n
    → n < fuel
    → os.input s.trace e.chownat Server.size ≡ got Client.keep_alive
    → Ended (on_udp os e fuel s)
unfolding on_udp end_session close_sock
keep_alive_ends_session os e n fuel s silent enough heard =
    let (i, t) = receive os e.chownat Server.size s.trace in
    ground (
      arith,
      heard,
      chownat_disconnect-Alike os e n fuel (reset (record s { trace = t })) silent enough,
    )

-- What the client's disconnection leaves as it is, where it ends.
abbrev Same : State → Ran → Type 0
Same s (goes x) = (x.read_fds ≡ s.read_fds) × (x.sock ≡ s.sock)
Same s (exits t) = Unit
Same s (out_of_fuel t) = Unit

client_rounds-Same :
    (os : Os) (e : Ends) (fuel : ℕ) (s : State) → Same s (Client.disconnect_rounds os e fuel s)
unfolding Client.disconnect_rounds
client_rounds-Same os e zero s = tt
client_rounds-Same os e (suc f) s =
    let heard = hear os e s.bye s.trace in
    ground (arith, client_rounds-Same os e f (record s { bye = heard.0; trace = heard.1 }))

client_disconnect-Same :
    (os : Os) (e : Ends) (fuel : ℕ) (s : State) → Same s (Client.chownat_disconnect os e fuel s)
unfolding Client.chownat_disconnect
client_disconnect-Same os e fuel s =
    let asked = record s {
      trace = (perform os (send_to e.chownat Msg.close_request e.dst) s.trace).1;
    } in
    client_rounds-Same os e fuel asked

-- The client's end of a session: the newest event is the close of the descriptor that the next
-- `select` still watches.
record Shut (os : Os) (s s' : State) : Type 0 where
  same_fds : s'.read_fds ≡ s.read_fds
  before : Trace
  shut : s'.trace ≡ (perform os (close s.sock) before).1

Ran-Shut :
    (os : Os) (r : Ran) (s s' : State)
    → Same s r
    → and_then r (λ s1. goes (record (close_sock os s1) { closed = true })) ≡ goes s'
    → Shut os s s'
unfolding close_sock
Ran-Shut os (goes x) s s' same ended = record {
  same_fds = ground arith;
  before = x.trace;
  shut = ground arith;
}
Ran-Shut os (exits t) s s' same ended = ground arith
Ran-Shut os (out_of_fuel t) s s' same ended = ground arith

end_session-Shut :
    (os : Os) (e : Ends) (fuel : ℕ) (s s' : State)
    → Client.end_session os e fuel s ≡ goes s'
    → Shut os s s'
unfolding Client.end_session
end_session-Shut os e fuel s s' ended =
    let shut =
      Ran-Shut os (Client.chownat_disconnect os e fuel (reset s)) (reset s) s'
        (client_disconnect-Same os e fuel (reset s)) ended in
    record { same_fds = shut.same_fds; before = shut.before; shut = shut.shut }

-- `select` refuses a descriptor that was just closed.
abbrev pub RefusesClosed : Os → Type 0
RefusesClosed os =
    (t : Trace) (fd : ℤ) (fds : List ℤ) (tv : Timeval)
    → is_in fd fds ≡ true
    → (x : Errno) × (os.select (perform os (close fd) t).1 fds (some tv) ≡ not_ready x)

-- Where the local end of the first client closes while its socket is watched, and that round of
-- the loop ends, the process exits at the next wait, if select refuses a descriptor that was just
-- closed.
pub client_exits :
    (os : Os) (e : Ends) (fuel fuel' : ℕ) (s s' : State)
    → RefusesClosed os
    → eqb_ℤ s.sock minus_one ≡ false
    → is_in s.sock s.read_fds ≡ true
    → os.input s.trace s.sock Client.size ≡ got []
    → Client.on_ready os e fuel s ≡ goes s'
    → (t : Trace) × (Client.ready_rounds os e (suc fuel') s' ≡ exits t)
unfolding Client.on_ready Client.on_tcp Client.ready_rounds
client_exits os e fuel fuel' s s' refuses is_open watched closed_end ended =
    let t : Trace = read s.sock Client.size (got []) ∷ s.trace in
    let same : Client.on_ready os e fuel s ≡ Client.end_session os e fuel (record s { trace = t }) =
      ground (arith, is_open, watched, closed_end) in
    let shut = end_session-Shut os e fuel (record s { trace = t }) s' (sym same ∙ ended) in
    let tv : Timeval = record { tv_sec = 0; tv_usec = 1000 } in
    let (x, refused) = refuses shut.before s.sock s.read_fds tv watched in
    let failing : os.select s'.trace s'.read_fds (some tv) ≡ not_ready x =
      rw (shut.shut, shut.same_fds) refused in
    (
      waited s'.read_fds (some tv) (os.select s'.trace s'.read_fds (some tv)) ∷ s'.trace,
      ground (arith, failing),
    )
