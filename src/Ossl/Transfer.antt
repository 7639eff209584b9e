-- ===== src/Ossl/Transfer.antt =====
-- source/libs/protocols/ossl_quic/src/ossl_quic.c: ossl_quic_udp_send, ossl_quic_udp_recv,
-- ossl_quic_pending_data and ossl_quic_process_events.
use quic_web_rtc_like.Base.{
  ℕ, Bool, not, ◌||◌, ◌==◌, Option, none, some, [], ◌∷◌, Bytes, or_return, take, if◌then◌else◌,
}
use quic_web_rtc_like.Sys.{Os, Trace, Outcome, returned, tls}
use quic_web_rtc_like.Sys.Tls.{ssl_write, ssl_read, handle_events}
use quic_web_rtc_like.Conn.{Status, ok, err, not_init, notify}
use quic_web_rtc_like.Conn.{closed as status_closed}
use quic_web_rtc_like.Ossl.Setup.{St}
use quic_web_rtc_like.Ossl.Connect.{Callback, udp_recv_data, udp_data_sent}
use quic_web_rtc_like.Ossl.Close.{record_close_status, disconnect}
use quic_web_rtc_like.Ossl.Tls.{Tls, want_read, want_write, other_error, ask, nonzero}

module _ (ssl : Tls) (callback : Callback) where
  -- The option is what `*sent_bytes` becomes, if it is written. The callback gets the bytes that
  -- were taken.
  unfoldable pub udp_send : Bytes → St → Status × Option ℕ × St
  udp_send bytes c =
      or_return c.udp_session (err, none, c)
        λ _.
          or_return c.data_ptr (err, none, c)
            λ d.
              or_return c.ctrl (err, none, c)
                λ k.
                  if not k.init
                  then (not_init, none, c)
                  else if d.closed
                  then (status_closed, none, c)
                  else let c1 : St = record c { trace = tls (ssl_write d.conn bytes) ∷ c.trace } in
                    or_return (ssl.write c.trace d.conn bytes) (err, none, c1)
                      λ sent. (ok, some sent, notify callback udp_data_sent (take sent bytes) c1)

  -- The option is what the caller gets: `none` leaves the buffer and `*recv_bytes` alone, `some b`
  -- copies `b` and stores its length.
  unfoldable pub udp_recv : Bool → Bool → ℕ → St → Status × Option Bytes × St
  udp_recv has_count has_buf nbytes c =
      if not has_count
      then (err, none, c)
      else or_return c.data_ptr (err, some [], c)
          λ d.
            or_return c.ctrl (err, some [], c)
              λ k.
                if not has_buf || (nbytes == 0)
                then (err, some [], c)
                else if not k.init
                then (not_init, some [], c)
                else if d.closed
                then (status_closed, some [], c)
                else let t1 : Trace = tls (ssl_read d.conn nbytes) ∷ c.trace in
                  let c1 : St = record c { trace = t1 } in
                  elim (ssl.read c.trace d.conn nbytes) [
                    | some b ↦ (ok, some b, notify callback udp_recv_data b c1)
                    | none ↦ (
                      elim (ssl.error t1 d.conn) [
                        | want_read ↦ ok
                        | want_write ↦ ok
                        | other_error n ↦ err
                      ],
                      some [],
                      c1,
                    )
                  ]

  -- `data` is not checked here: where it is NULL, `process_events` has ended the loop before.
  unfoldable pub pending_data : St → ℕ
  pending_data c = or_return c.data_ptr 0 λ d. ssl.pending c.trace d.conn

  unfoldable pub process_events : Os → ℕ → St → Outcome Status × St
  process_events os fuel c =
      or_return c.data_ptr (returned err, c)
        λ d.
          or_return d.conn (returned err, c)
            λ h.
              let (handled, t1) = ask ssl (handle_events h) c.trace in
              let (closing, s) = record_close_status ssl h d.close_status t1 in
              if not (nonzero handled)
              then (returned err, record c { trace = t1 })
              else let c1 : St = record c {
                data_ptr = some (record d { close_status = s });
                trace = t1;
              } in
                if closing then disconnect os ssl callback fuel c1 else (returned ok, c1)
