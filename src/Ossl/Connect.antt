-- ===== src/Ossl/Connect.antt =====
-- source/libs/protocols/ossl_quic/src/ossl_quic.c: ossl_quic_pre_connect, ossl_quic_connect and the
-- keep-alive, which sends nothing.
use quic_web_rtc_like.Base.{
  ℕ, Bool, Bytes, true, false, not, ◌==◌, Option, none, some, [], ◌∷◌, or_return, is_some,
  if◌then◌else◌,
}
use quic_web_rtc_like.Sys.{Os, Trace, Outcome, returned, tls, failed, connect, perform}
use quic_web_rtc_like.Sys.Tls.{
  ssl_new, new_listener, set_fd, set_connect_state, ssl_connect, ssl_listen, accept_connection,
  set_blocking_mode,
}
use quic_web_rtc_like.Conn.{Status, ok, err, not_init, UdpSession, notify}
use quic_web_rtc_like.Conn.{closed as status_closed}
use quic_web_rtc_like.Ossl.State.{Data}
use quic_web_rtc_like.Ossl.Setup.{St}
use quic_web_rtc_like.Ossl.Tls.{Tls, ask, nonzero, all_pass}

-- `ossl_quic_reasons_t`
abbrev pub udp_connected : ℕ
udp_connected = 0

abbrev pub udp_disconnected : ℕ
udp_disconnected = 1

abbrev pub udp_recv_data : ℕ
udp_recv_data = 2

abbrev pub udp_data_sent : ℕ
udp_data_sent = 4

-- `data->closed = 0`
abbrev pub reopened : St → St
reopened c = record c { data_ptr = opened c.data_ptr }
  where
    opened : Option (Data ℕ ℕ) → Option (Data ℕ ℕ)
    opened none = none
    opened (some d) = some (record d { closed = false })

-- The application's callback, which gets the connection and may call the API with it.
abbrev pub Callback : Type 0
Callback = ℕ → Bytes → St → St

module _ (os : Os) (ssl : Tls) where
  -- `ossl_quic_pre_connect`, client.
  unfoldable pub prepare_client : UdpSession → Data ℕ ℕ → Trace → Status × Data ℕ ℕ × Trace
  prepare_client u d t =
      let made = ssl.object t (ssl_new d.ctx) in
      let d1 = record d { conn = made } in
      let t1 : Trace = tls (ssl_new d.ctx) ∷ t in
      if not (is_some made)
      then (err, d1, t1)
      else let (r, t2) = ask ssl (set_fd made u.socket_fd) t1 in
        if not (nonzero r)
        then (err, d1, t2)
        else let (r3, t3) =
            perform os (connect u.socket_fd u.dst) (tls (set_connect_state made) ∷ t2) in
          (if failed r3 then err else ok, d1, t3)

  -- `ossl_quic_pre_connect`, server.
  unfoldable pub prepare_server : UdpSession → Data ℕ ℕ → Trace → Status × Data ℕ ℕ × Trace
  prepare_server u d t =
      let made = ssl.object t (new_listener d.ctx) in
      let d1 = record d { conn = none; listener = made } in
      let t1 : Trace = tls (new_listener d.ctx) ∷ t in
      if not (is_some made)
      then (err, d1, t1)
      else let (good, t2) =
          all_pass ssl
            ((set_fd made u.socket_fd, nonzero)
              ∷ (ssl_listen made, nonzero)
              ∷ (set_blocking_mode made true, nonzero)
              ∷ [])
            t1 in
        (if good then ok else err, d1, t2)

  unfoldable pub pre_connect : St → Status × St
  pre_connect c =
      or_return c.udp_session (err, c)
        λ u.
          or_return c.data_ptr (err, c)
            λ d.
              or_return c.ctrl (err, c)
                λ k.
                  if k.mode == b'c'
                  then (let (s, d1, t1) = prepare_client u d c.trace in
                      (s, record c { data_ptr = some d1; trace = t1 }))
                  else if k.mode == b's'
                  then (let (s, d1, t1) = prepare_server u d c.trace in
                      (s, record c { data_ptr = some d1; trace = t1 }))
                  else (ok, c)

  -- The handshake: whether it succeeds. A server's connection is the one that it accepts.
  unfoldable pub handshake : ℕ → Data ℕ ℕ → Trace → Bool × Data ℕ ℕ × Trace
  handshake mode d t =
      if mode == b'c'
      then (let (r, t1) = ask ssl (ssl_connect d.conn) t in (nonzero r, d, t1))
      else if mode == b's'
      then (let made = ssl.object t (accept_connection d.listener) in
          (is_some made, record d { conn = made }, tls (accept_connection d.listener) ∷ t))
      else (false, d, t)

  -- The result of `pre_connect` is not looked at.
  unfoldable pub connect_quic : Callback → St → Status × St
  unfolding pre_connect prepare_client prepare_server handshake
  connect_quic callback c =
      or_return c.data_ptr (err, c)
        λ _.
          or_return c.udp_session (err, c)
            λ _.
              or_return c.ctrl (err, c)
                λ k.
                  let (_, c1) = pre_connect c in
                  or_return c1.data_ptr (err, c1)
                    λ d.
                      let (good, d2, t2) = handshake k.mode d c1.trace in
                      let c2 : St = record c1 { data_ptr = some d2; trace = t2 } in
                      if not good
                      then (err, c2)
                      else let (r, t3) = ask ssl (set_blocking_mode d2.conn false) t2 in
                        let c3 : St = record c2 { trace = t3 } in
                        if not (nonzero r)
                        then (err, c3)
                        else (ok, reopened (notify callback udp_connected [] c3))

unfoldable pub send_keep_alive : St → Outcome Status × St
send_keep_alive c =
    or_return c.udp_session (returned err, c)
      λ _.
        or_return c.data_ptr (returned err, c)
          λ d.
            or_return c.ctrl (returned err, c)
              λ k.
                if not k.init
                then (returned not_init, c)
                else if d.closed
                then (returned status_closed, c)
                else (returned ok, c)
