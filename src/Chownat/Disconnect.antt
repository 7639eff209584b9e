-- ===== src/Chownat/Disconnect.antt =====
-- source/libs/protocols/chownat/src/chownat.c: closing a session, by this side
-- (chownat_disconnect_send) or on the peer's request (chownat_disconnect_recv).
use quic_web_rtc_like.Base.{
  ℕ, zero, suc, true, none, some, Bytes, pos, minus_one, ltb_ℤ, to_ℕ, or_return, overwrite,
  starts_with, if◌then◌else◌, not,
}
use quic_web_rtc_like.Sys.{
  Os, Trace, Outcome, returned, out_of_fuel, close, send_to, got, no_input, perform, receive,
}
use quic_web_rtc_like.Conn.{Status, ok, err, not_init, UdpSession, TcpSession}
use quic_web_rtc_like.Conn.{closed as status_closed}
use quic_web_rtc_like.Chownat.State.{Data, St}
use quic_web_rtc_like.Chownat.Msg
use quic_web_rtc_like.Chownat.Confirm.{confirm_rounds}

module _ (os : Os) (u : UdpSession) where
  -- The loop of `chownat_disconnect_send`. Every round counts as an attempt, so it recurs on the
  -- attempts left. `buf` is `buffer`, which a short read leaves in part as it was.
  unfoldable pub request_rounds : ℕ → Bytes → Trace → Trace
  request_rounds zero buf t = t
  request_rounds (suc n) buf t =
      let (_, t1) = perform os (send_to u.socket_fd Msg.close_request u.dst) t in
      let (i, t2) = receive os u.socket_fd 3 t1 in
      elim i [
        | no_input e ↦ request_rounds n buf t2
        | got b ↦
            let rest = request_rounds n (overwrite b buf) t2 in
            if starts_with Msg.confirm (overwrite b buf)
            then (perform os (send_to u.socket_fd Msg.confirm u.dst) t2).1
            else rest
      ]

-- What both do to the TCP session at the end: `disconnect_send` closes the descriptors above 0.
unfoldable pub close_positive : Os → TcpSession → Trace → TcpSession × Trace
close_positive os tcp t =
    let (tcp1, t1) =
      if ltb_ℤ (pos 0) tcp.socket_fd
      then (record tcp { socket_fd = minus_one }, (perform os (close tcp.socket_fd) t).1)
      else (tcp, t) in
    if ltb_ℤ (pos 0) tcp1.accepted_sock
    then (record tcp1 { accepted_sock = minus_one }, (perform os (close tcp1.accepted_sock) t1).1)
    else (tcp1, t1)

-- `disconnect_recv` closes both, whatever they are.
unfoldable pub close_both : Os → TcpSession → Trace → TcpSession × Trace
close_both os tcp t =
    let (_, t1) = perform os (close tcp.socket_fd) t in
    let (_, t2) = perform os (close tcp.accepted_sock) t1 in
    (record tcp { socket_fd = minus_one; accepted_sock = minus_one }, t2)

-- The counters go back to 0, the TCP session is closed, and the session counts as closed.
unfoldable pub finish : (TcpSession → Trace → TcpSession × Trace) → Data → St → St
finish close_tcp d c =
    let ended : Data = record d { id = 0; expected = 0; closed = true } in
    elim c.tcp_session [
      | none ↦ record c { data_ptr = some ended }
      | some tcp ↦
          let (tcp', t) = close_tcp tcp c.trace in
          record c { data_ptr = some ended; tcp_session = some tcp'; trace = t }
    ]

-- `chownat_disconnect_send`
unfoldable pub disconnect_send : Os → St → Status × St
unfolding request_rounds close_positive finish
disconnect_send os c =
    or_return c.config (err, c)
      λ cfg.
        or_return c.data_ptr (err, c)
          λ d.
            or_return c.udp_session (err, c)
              λ u.
                or_return c.ctrl (err, c)
                  λ k.
                    if not k.init
                    then (not_init, c)
                    else if d.closed
                    then (status_closed, c)
                    else let t =
                        request_rounds os u (to_ℕ cfg.conn_max_attempts) (os.garbage c.trace)
                          c.trace in
                      (ok, finish (close_positive os) d (record c { trace = t }))

-- `chownat_disconnect_recv`
unfoldable pub disconnect_recv : Os → ℕ → St → Outcome Status × St
unfolding confirm_rounds close_both finish
disconnect_recv os fuel c =
    or_return c.config (returned err, c)
      λ cfg.
        or_return c.data_ptr (returned err, c)
          λ d.
            or_return c.udp_session (returned err, c)
              λ u.
                or_return c.ctrl (returned err, c)
                  λ k.
                    if not k.init
                    then (returned not_init, c)
                    else if d.closed
                    then (returned status_closed, c)
                    else elim (confirm_rounds os u cfg.conn_max_attempts fuel 0 (os.garbage c.trace)
                        c.trace) [
                          | none ↦ (out_of_fuel, c)
                          | some (_, _, t) ↦
                              (returned ok, finish (close_both os) d (record c { trace = t }))
                        ]
