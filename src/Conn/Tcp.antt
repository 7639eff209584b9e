-- ===== src/Conn/Tcp.antt =====
-- source/libs/protocols/udp_conn/src/udp_conn.c: tcp_bind, tcp_recv and tcp_send, the local end of
-- the tunnel.
use quic_web_rtc_like.Base.{
  ℕ, zero, suc, not, some, [], ◌∷◌, Bytes, ℤ, pos, minus_one, ltb_ℤ, or_return, drop, ◌==◌,
  if◌then◌else◌,
}
use quic_web_rtc_like.Sys.{
  Os, Trace, Outcome, returned, exited, out_of_fuel, ret, fail, failed, eintr, other, again,
  set_sock_opt, reuse_addr, close, bind, listen, accept, connect, send, got, no_input, perform,
}
use quic_web_rtc_like.Conn.{
  Status, ok, err, not_init, without_tcp_tunneling, TcpSession, Conn, call, run, receive_on,
}
use quic_web_rtc_like.Conn.{closed as status_closed}
use quic_web_rtc_like.Conn.Api.{Api, closes}

-- `TCP_MTU_SIZE`
abbrev pub tcp_mtu_size : ℕ
tcp_mtu_size = 1024

module _ {D C : Type 0} where
  -- `tcp_bind`, client: the program waits for a local connection. `accepted_sock` is written also
  -- where `accept` fails.
  unfoldable pub bind_client : Os → TcpSession → Conn D C → Status × Conn D C
  bind_client os tcp c =
      let (r1, c1) = call os (set_sock_opt tcp.socket_fd (reuse_addr tcp.reuse)) c in
      if failed r1
      then (err, run os (close tcp.socket_fd) c1)
      else let (r2, c2) = call os (bind tcp.socket_fd tcp.local) c1 in
        if failed r2
        then (err, run os (close tcp.socket_fd) c2)
        else let (r3, c3) = call os (listen tcp.socket_fd 20) c2 in
          if failed r3
          then (err, run os (close tcp.socket_fd) c3)
          else let (r4, c4) = call os (accept tcp.socket_fd) c3 in
            elim r4 [
              | fail e ↦
                  (err, record c4 { tcp_session = some (record tcp { accepted_sock = minus_one }) })
              | ret n ↦
                  (ok, record c4 { tcp_session = some (record tcp { accepted_sock = pos n }) })
            ]

  -- `tcp_bind`, server: it connects to the local service, and ends the process if it cannot.
  unfoldable pub bind_server : Os → TcpSession → Conn D C → Outcome Status × Conn D C
  bind_server os tcp c =
      if ltb_ℤ tcp.socket_fd (pos 0)
      then (exited, c)
      else let (r, c1) = call os (connect tcp.socket_fd tcp.local) c in
        if failed r then (exited, c1) else (
          returned ok,
          record c1 { tcp_session = some (record tcp { accepted_sock = tcp.socket_fd }) },
        )

  unfoldable pub tcp_bind : Os → Conn D C → Outcome Status × Conn D C
  unfolding bind_client bind_server
  tcp_bind os c =
      or_return c.tcp_session (returned without_tcp_tunneling, c)
        λ tcp.
          or_return c.udp_session (returned err, c)
            λ _.
              or_return c.ctrl (returned err, c)
                λ k.
                  if not k.init
                  then (returned not_init, c)
                  else if k.mode == b'c'
                  then (let (s, c1) = bind_client os tcp c in (returned s, c1))
                  else if k.mode == b's'
                  then bind_server os tcp c
                  else (returned err, c)

  -- What the local end sends goes to the peer.
  unfoldable pub tcp_recv : Os → Api D C → Conn D C → Status × Conn D C
  tcp_recv os api c =
      or_return c.udp_session (err, c)
        λ _.
          or_return c.tcp_session (err, c)
            λ tcp.
              or_return c.ctrl (err, c)
                λ k.
                  if not k.init
                  then (not_init, c)
                  else if closes api c
                  then (status_closed, c)
                  else let (i, c1) = receive_on os tcp.accepted_sock tcp_mtu_size c in
                    elim i [
                      | no_input e ↦ (err, c1)
                      | got msg ↦ elim msg [ [] ↦ (err, c1) | x ∷ xs ↦ api.udp_send (x ∷ xs) c1 ]
                    ]

-- The loop of `tcp_send`, over the bytes from `offset` on: `sent <= 0` ends it, but for EINTR.
unfoldable pub send_all : Os → ℤ → ℕ → Bytes → Trace → Outcome Status × Trace
send_all os fd fuel [] t = (returned ok, t)
send_all os fd zero (x ∷ xs) t = (out_of_fuel, t)
send_all os fd (suc f) (x ∷ xs) t =
    let (r, t1) = perform os (send fd (x ∷ xs)) t in
    elim r [
      | ret zero ↦ (returned err, t1)
      | ret (suc n) ↦ send_all os fd f (drop n xs) t1
      | fail eintr ↦ send_all os fd f (x ∷ xs) t1
      | fail again ↦ (returned err, t1)
      | fail (other n) ↦ (returned err, t1)
    ]

-- `tcp_send`: with no TCP session there is nothing to do.
unfoldable pub tcp_send : {D C : Type 0} → Os → ℕ → Bytes → Conn D C → Outcome Status × Conn D C
unfolding send_all
tcp_send os fuel bytes c =
    or_return c.tcp_session (returned ok, c)
      λ tcp.
        let (s, t) = send_all os tcp.accepted_sock fuel bytes c.trace in (s, record c { trace = t })
