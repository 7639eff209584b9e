-- ===== src/Prototype/Client.antt =====
-- chownat/C/chownat_client.c.
use quic_web_rtc_like.Base.{
  ℕ, zero, suc, ◌+◌, ◌%◌, ◌==◌, ◌&&◌, not, true, false, [], ◌∷◌, Bytes, ℤ, pos, minus_one, eqb_ℤ,
  length, drop, ltb, starts_with, if◌then◌else◌, some,
}
use quic_web_rtc_like.Sys.{
  Os, Trace, ret, fail, failed, Addr, socket, set_sock_opt, reuse_addr, bind, listen, accept, close,
  send, send_to, perform, receive, got, no_input, ready, not_ready, waited, is_in,
}
use quic_web_rtc_like.Chownat.Msg
use quic_web_rtc_like.Chownat.Transfer.{number_of}
use quic_web_rtc_like.Prototype.{
  Ends, State, Ran, goes, exits, out_of_fuel, and_then, watch, says, hear, forward, on_resend,
  reset, close_sock, open_udp, at_start,
}

-- `size`
abbrev pub size : ℕ
size = 4096

-- `client_connect`, on fuel: the source tries for ever.
unfoldable pub client_connect : Os → Ends → ℕ → State → Ran
client_connect os e zero s = out_of_fuel s.trace
client_connect os e (suc f) s =
    let asked = says os e Msg.open_request s in
    let (buf, t) = hear os e s.hello asked.trace in
    let heard = record s { hello = buf; trace = t } in
    let rest = client_connect os e f heard in
    if starts_with Msg.confirm buf then goes (says os e Msg.confirm heard) else rest

-- The loop of `chownat_disconnect`, on fuel.
unfoldable pub disconnect_rounds : Os → Ends → ℕ → State → Ran
disconnect_rounds os e zero s = out_of_fuel s.trace
disconnect_rounds os e (suc f) s =
    let (buf, t) = hear os e s.bye s.trace in
    let heard = record s { bye = buf; trace = t } in
    let rest = disconnect_rounds os e f heard in
    if starts_with Msg.close_request buf then goes (says os e Msg.close_request heard) else rest

unfoldable pub chownat_disconnect : Os → Ends → ℕ → State → Ran
unfolding disconnect_rounds
chownat_disconnect os e fuel s = disconnect_rounds os e fuel (says os e Msg.close_request s)

-- Both ways to the end of a session.
unfoldable pub end_session : Os → Ends → ℕ → State → Ran
unfolding chownat_disconnect close_sock
end_session os e fuel s =
    and_then (chownat_disconnect os e fuel (reset s))
      λ s1. goes (record (close_sock os s1) { closed = true })

-- The local end is readable.
unfoldable pub on_tcp : Os → Ends → ℕ → State → Ran
unfolding end_session forward
on_tcp os e fuel s =
    let (i, t) = receive os s.sock size s.trace in
    let s1 = record s { trace = t } in
    elim i [
      | no_input _ ↦ exits t
      | got [] ↦ end_session os e fuel s1
      | got (b ∷ bs) ↦ goes (forward os e (b ∷ bs) s1)
    ]

-- `expected++; if(expected == 255) expected = 0;`
unfoldable pub next_expected : ℕ → ℕ
next_expected n = if n + 1 == 255 then 0 else n + 1

unfoldable pub on_packet : Os → Ends → Bytes → State → Ran
unfolding next_expected
on_packet os e msg s =
    if not (number_of msg == s.expected % 256)
    then goes (says os e (Msg.resend s.expected) s)
    else let (r, t) = perform os (send s.sock (drop 3 msg)) s.trace in
      if failed r
      then exits t
      else goes (record s { expected = next_expected s.expected; trace = t })

-- A message of the other end.
unfoldable pub dispatch : Os → Ends → ℕ → Bytes → State → Ran
unfolding on_packet end_session
dispatch os e fuel msg s =
    if ltb (length msg) 3
    then goes (watch e s)
    else if starts_with Msg.close_request msg
    then end_session os e fuel s
    else if starts_with Msg.confirm msg
    then goes (watch e s)
    else if starts_with Msg.resend_tag msg
    then goes (on_resend os e (number_of msg) s)
    else if starts_with Msg.packet_tag msg
    then on_packet os e msg s
    else goes s

unfoldable pub on_udp : Os → Ends → ℕ → State → Ran
unfolding dispatch
on_udp os e fuel s =
    let (i, t) = receive os e.chownat 4093 s.trace in
    let s1 = record s { trace = t } in
    elim i [ no_input _ ↦ exits t | got msg ↦ dispatch os e fuel msg s1 ]

-- The body of the loop on `select`, which leaves the readable descriptors in `read_fds`. The next
-- `select` watches only these unless a branch sets them again.
unfoldable pub on_ready : Os → Ends → ℕ → State → Ran
unfolding on_tcp on_udp
on_ready os e fuel s =
    if not (eqb_ℤ s.sock minus_one) && is_in s.sock s.read_fds
    then on_tcp os e fuel s
    else if is_in e.chownat s.read_fds
    then on_udp os e fuel s
    else goes s

-- The loop on `select`, which ends at a timeout. The time left of the millisecond is the system's.
unfoldable pub ready_rounds : Os → Ends → ℕ → State → Ran
unfolding on_ready
ready_rounds os e zero s = out_of_fuel s.trace
ready_rounds os e (suc f) s =
    let tv = some (record { tv_sec = 0; tv_usec = 1000 }) in
    let r = os.select s.trace s.read_fds tv in
    let t = waited s.read_fds tv r ∷ s.trace in
    elim r [
      | not_ready _ ↦ exits t
      | ready [] ↦ goes (record s { read_fds = []; trace = t })
      | ready (fd ∷ fds) ↦
          and_then (on_ready os e f (record s { read_fds = fd ∷ fds; trace = t }))
            (ready_rounds os e f)
    ]

-- The keep-alive after a timeout: a datagram without a byte.
abbrev pub keep_alive : Bytes
keep_alive = []

-- The loop of a session.
unfoldable pub session_rounds : Os → Ends → ℕ → State → Ran
unfolding ready_rounds
session_rounds os e zero s = out_of_fuel s.trace
session_rounds os e (suc f) s =
    if s.closed
    then goes s
    else and_then (ready_rounds os e f (watch e s)) λ s1.
      let (r, t) = perform os (send_to e.chownat keep_alive e.dst) s1.trace in
      if failed r then exits t else session_rounds os e f (record s1 { trace = t })

-- The loop on `accept`, where `waitcli` is the listening socket; both sockets are closed at its end.
unfoldable pub accept_rounds : Os → Ends → ℤ → ℕ → State → Ran
unfolding client_connect session_rounds
accept_rounds os e waitcli zero s = out_of_fuel s.trace
accept_rounds os e waitcli (suc f) s =
    let (r, t) = perform os (accept waitcli) s.trace in
    elim r [
      | fail _ ↦ goes (record s {
        sock = minus_one;
        trace = (perform os (close e.chownat) (perform os (close waitcli) t).1).1;
      })
      | ret n ↦ and_then (client_connect os e f (record s { sock = pos n; trace = t })) λ s1.
          and_then (session_rounds os e f (record s1 { closed = false; id = 0; expected = 0 }))
            (accept_rounds os e waitcli f)
    ]

-- `client_bind`: the listening socket; where a call fails, what was made is closed and the process
-- ends.
unfoldable pub client_bind : Os → Addr → Trace → (ℤ → Trace → Ran) → Ran
client_bind os local_addr t rest =
    let (r, t1) = perform os socket t in
    elim r [
      | fail _ ↦ exits t1
      | ret n ↦
          let (r2, t2) = perform os (set_sock_opt (pos n) (reuse_addr (pos 1))) t1 in
          if failed r2
          then exits (perform os (close (pos n)) t2).1
          else let (r3, t3) = perform os (bind (pos n) local_addr) t2 in
            if failed r3
            then exits (perform os (close (pos n)) t3).1
            else let (r4, t4) = perform os (listen (pos n) 20) t3 in
              if failed r4 then exits (perform os (close (pos n)) t4).1 else rest (pos n) t4
    ]

unfoldable pub main : Os → Addr → Addr → Addr → ℕ → Trace → Ran
unfolding client_bind accept_rounds
main os src local_addr dst fuel t = open_udp os src t λ fd t1.
    client_bind os local_addr t1 λ waitcli t2.
      let e : Ends = record { chownat = fd; dst = dst; local_addr = local_addr } in
      accept_rounds os e waitcli fuel (at_start size t2)
