-- ===== src/Prototype/Server.antt =====
-- chownat/C/chownat_server.c.
use quic_web_rtc_like.Base.{
  ℕ, zero, suc, ◌==◌, ◌&&◌, not, List, [], ◌∷◌, Bytes, ℤ, pos, minus_one, eqb_ℤ, length, drop, ltb,
  starts_with, if◌then◌else◌, some,
}
use quic_web_rtc_like.Sys.{
  Os, Trace, Addr, ret, fail, failed, socket, connect, send, send_to, perform, receive, got,
  no_input, ready, not_ready, waited, is_in,
}
use quic_web_rtc_like.Chownat.Msg
use quic_web_rtc_like.Chownat.Transfer.{number_of}
use quic_web_rtc_like.Prototype.{
  Ends, State, Ran, goes, exits, out_of_fuel, and_then, watch, says, hear, forward, next_id,
  on_resend, reset, close_sock, open_udp, at_start,
}

-- `size`
abbrev pub size : ℕ
size = 1024

-- The loop of `chownat_disconnect`: it ends also where `select` fails or times out. The set and the
-- timeout are those that `select` has left.
unfoldable pub disconnect_rounds : Os → Ends → ℕ → State → Ran
disconnect_rounds os e zero s = out_of_fuel s.trace
disconnect_rounds os e (suc f) s =
    let tv = some (record { tv_sec = 2; tv_usec = 0 }) in
    let r = os.select s.trace (e.chownat ∷ []) tv in
    let (buf, t) = hear os e s.bye (waited (e.chownat ∷ []) tv r ∷ s.trace) in
    let heard = record s { bye = buf; trace = t } in
    let waits = record s { trace = waited (e.chownat ∷ []) tv r ∷ s.trace } in
    let rest = disconnect_rounds os e f heard in
    elim r [
      | not_ready _ ↦ goes waits
      | ready [] ↦ goes waits
      | ready (_ ∷ _) ↦
          if starts_with Msg.close_request buf
          then goes (says os e Msg.close_request heard)
          else rest
    ]

unfoldable pub chownat_disconnect : Os → Ends → ℕ → State → Ran
unfolding disconnect_rounds
chownat_disconnect os e fuel s = disconnect_rounds os e fuel (says os e Msg.close_request s)

-- The end of a session, and what is said before the socket is closed.
unfoldable pub end_session : Os → Ends → ℕ → (State → State) → State → Ran
unfolding chownat_disconnect close_sock
end_session os e fuel last s =
    and_then (chownat_disconnect os e fuel (reset s)) λ s1. goes (close_sock os (last s1))

-- The local end is readable.
unfoldable pub on_tcp : Os → Ends → ℕ → State → Ran
unfolding end_session forward
on_tcp os e fuel s =
    let (i, t) = receive os s.sock size s.trace in
    let s1 = record s { trace = t } in
    elim i [
      | no_input _ ↦ exits t
      | got [] ↦ end_session os e fuel (λ x. x) s1
      | got (b ∷ bs) ↦ goes (forward os e (b ∷ bs) s1)
    ]

-- A client opens a path: the confirmation is sent until it is answered, on fuel.
unfoldable pub confirm_rounds : Os → Ends → ℕ → State → Ran
confirm_rounds os e zero s = out_of_fuel s.trace
confirm_rounds os e (suc f) s =
    let said = says os e Msg.confirm s in
    let (buf, t) = hear os e s.hello said.trace in
    let heard = record s { hello = buf; trace = t } in
    let rest = confirm_rounds os e f heard in
    if starts_with Msg.confirm buf then goes heard else rest

-- Then the local service is connected to.
unfoldable pub on_open : Os → Ends → ℕ → State → Ran
unfolding confirm_rounds close_sock
on_open os e fuel s = and_then (confirm_rounds os e fuel s) λ s1.
    let s2 = close_sock os s1 in
    let (r, t3) = perform os socket s2.trace in
    elim r [
      | fail _ ↦ exits t3
      | ret n ↦
          let (r4, t4) = perform os (connect (pos n) e.local_addr) t3 in
          if failed r4 then exits t4 else goes (record s2 { sock = pos n; trace = t4 })
    ]

-- The expected number wraps where the packet number does.
unfoldable pub on_packet : Os → Ends → Bytes → State → Ran
unfolding next_id
on_packet os e msg s =
    if not (number_of msg == s.expected)
    then goes (says os e (Msg.resend s.expected) s)
    else let (r, t) = perform os (send s.sock (drop 3 msg)) s.trace in
      if failed r then exits t else goes (record s { expected = next_id s.expected; trace = t })

-- A message of three bytes or more, and the set that the next `select` watches.
unfoldable pub dispatch : Os → Ends → ℕ → Bytes → State → Ran
unfolding on_open end_session on_packet
dispatch os e fuel msg s =
    if starts_with Msg.open_request msg
    then on_open os e fuel s
    else if starts_with Msg.close_request msg
    then end_session os e fuel (says os e Msg.close_request) s
    else if starts_with Msg.confirm msg
    then goes (says os e Msg.confirm s)
    else if starts_with Msg.resend_tag msg
    then goes (on_resend os e (number_of msg) s)
    else if starts_with Msg.packet_tag msg
    then on_packet os e msg s
    else exits s.trace

-- A datagram. One without a byte ends the session.
unfoldable pub on_udp : Os → Ends → ℕ → State → Ran
unfolding dispatch end_session
on_udp os e fuel s =
    let (i, t) = receive os e.chownat size s.trace in
    let s1 = record s { trace = t } in
    elim i [
      | no_input _ ↦ exits t
      | got [] ↦ end_session os e fuel (λ x. x) s1
      | got (b ∷ bs) ↦ if ltb (length (b ∷ bs)) 3 then goes s1 else dispatch os e fuel (b ∷ bs) s1
    ]

-- The body of the loop on `select`: the local end, then the other one. Every branch that goes on
-- sets `read_fds` again.
unfoldable pub on_ready : Os → Ends → ℕ → List ℤ → State → Ran
unfolding on_tcp on_udp
on_ready os e fuel fds s =
    and_then
      (and_then
        (if not (eqb_ℤ s.sock minus_one) && is_in s.sock fds then on_tcp os e fuel s else goes s)
        λ s1. if is_in e.chownat fds then on_udp os e fuel s1 else goes s1)
      λ s2. goes (watch e s2)

abbrev pub keep_alive : Bytes
keep_alive = 0 ∷ []

-- The loop on `select`; after five seconds in silence, of which the system keeps count, a keep-alive
-- is sent.
unfoldable pub rounds : Os → Ends → ℕ → State → Ran
unfolding on_ready
rounds os e zero s = out_of_fuel s.trace
rounds os e (suc f) s =
    let tv = some (record { tv_sec = 5; tv_usec = 0 }) in
    let r = os.select s.trace s.read_fds tv in
    let t = waited s.read_fds tv r ∷ s.trace in
    elim r [
      | not_ready _ ↦ exits t
      | ready [] ↦
          (let (sent, t1) = perform os (send_to e.chownat keep_alive e.dst) t in
            let rest = rounds os e f (watch e (record s { trace = t1 })) in
            if failed sent then exits t1 else rest)
      | ready (fd ∷ fds) ↦
          and_then (on_ready os e f (fd ∷ fds) (record s { trace = t })) (rounds os e f)
    ]

unfoldable pub main : Os → Addr → Addr → Addr → ℕ → Trace → Ran
unfolding rounds
main os src local_addr dst fuel t = open_udp os src t λ fd t1.
    let e : Ends = record { chownat = fd; dst = dst; local_addr = local_addr } in
    rounds os e fuel (watch e (at_start size t1))
