-- ===== src/Ossl/Release.antt =====
-- source/libs/protocols/ossl_quic/src/ossl_quic.c: ossl_quic_deinit.
use quic_web_rtc_like.Base.{
  ℕ, false, not, Option, none, some, ◌∷◌, ℤ, pos, leb_ℤ, minus_one, or_return, if◌then◌else◌,
}
use quic_web_rtc_like.Sys.{Os, Trace, Outcome, returned, exited, out_of_fuel, tls, close, perform}
use quic_web_rtc_like.Sys.Tls.{TlsCall, ssl_free, ctx_free}
use quic_web_rtc_like.Conn.{Status, err, not_init, UdpSession, TcpSession, Ctrl}
use quic_web_rtc_like.Ossl.State.{Data}
use quic_web_rtc_like.Ossl.Setup.{St}
use quic_web_rtc_like.Ossl.Connect.{Callback}
use quic_web_rtc_like.Ossl.Close.{disconnect}
use quic_web_rtc_like.Ossl.Tls.{Tls}

-- `SSL_free` and `SSL_CTX_free` do nothing at NULL.
abbrev pub free : (ℕ → TlsCall) → Option ℕ → Trace → Trace
free how none t = t
free how (some h) t = tls (how h) ∷ t

-- `if (fd >= 0) { close(fd); fd = -1; }`
abbrev pub close_fd : Os → ℤ → Trace → ℤ × Trace
close_fd os fd t = if leb_ℤ (pos 0) fd then (minus_one, (perform os (close fd) t).1) else (fd, t)

unfoldable pub close_tcp : Os → Option TcpSession → Trace → Option TcpSession × Trace
close_tcp os none t = (none, t)
close_tcp os (some tcp) t =
    let (accepted, t1) = close_fd os tcp.accepted_sock t in
    let (listening, t2) = close_fd os tcp.socket_fd t1 in
    (some (record tcp { accepted_sock = accepted; socket_fd = listening }), t2)

-- Everything is released, in the order of the source.
unfoldable pub release : Os → Data ℕ ℕ → UdpSession → Ctrl → St → St
unfolding close_tcp
release os d u k c =
    let t1 = free ctx_free d.ctx (free ssl_free d.listener (free ssl_free d.conn c.trace)) in
    let (fd, t2) = close_fd os u.socket_fd t1 in
    let (tcp, t3) = close_tcp os c.tcp_session t2 in
    record c {
      data_ptr = some (record d { conn = none; listener = none; ctx = none });
      udp_session = some (record u { socket_fd = fd });
      tcp_session = tcp;
      ctrl = some (record k { init = false });
      trace = t3;
    }

unfoldable pub deinit : Os → Tls → Callback → ℕ → St → Outcome Status × St
unfolding release
deinit os ssl callback fuel c =
    or_return c.udp_session (returned err, c)
      λ u.
        or_return c.data_ptr (returned err, c)
          λ d.
            or_return c.ctrl (returned err, c)
              λ k.
                if not k.init
                then (returned not_init, c)
                else let (o, c1) =
                    if d.closed
                    then (returned d.close_status, c)
                    else disconnect os ssl callback fuel c in
                  elim o [
                    | exited ↦ (exited, c1)
                    | out_of_fuel ↦ (out_of_fuel, c1)
                    | returned _ ↦
                        or_return c1.data_ptr (returned err, c1)
                          λ d1.
                            or_return c1.udp_session (returned err, c1)
                              λ u1.
                                or_return c1.ctrl (returned err, c1)
                                  λ k1. (returned d1.close_status, release os d1 u1 k1 c1)
                  ]
