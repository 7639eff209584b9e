-- ===== src/Ossl/Relaying.antt =====
-- source/libs/protocols/ossl_quic/src/ossl_quic.c: ossl_quic under `udp_connection` as a relay.
use mathlib.Core.Path.{subst}
use mathlib.Core.List.{append-nil}
use quic_web_rtc_like.Base.{
  ◌≡◌, refl, ap, ℕ, true, Bool, Bytes, arith, [], ◌++◌, is_some, or_return,
}
use quic_web_rtc_like.Sys.{Os, Outcome}
use quic_web_rtc_like.Conn.{Status, is_set}
use quic_web_rtc_like.Conn.Relay.{told, passed_on, view, bytes_of, Relays, Relayed}
use quic_web_rtc_like.Conn.Relayed.{udp_connection-relays}
use quic_web_rtc_like.Conn.Session.{udp_connection}
use quic_web_rtc_like.Ossl.State.{is_closed}
use quic_web_rtc_like.Ossl.Setup.{St}
use quic_web_rtc_like.Ossl.Tls.{Tls}
use quic_web_rtc_like.Ossl.Connect.{Callback, udp_recv_data}
use quic_web_rtc_like.Ossl.Transfer.{udp_recv, process_events}
use quic_web_rtc_like.Ossl.Backend.{ossl_api}
use quic_web_rtc_like.Ossl.Closed.{Ignores}
use quic_web_rtc_like.Ossl.Seen.{
  hole_punching-seen, process_events-seen, connect_quic-seen, udp_send-seen, disconnect-seen,
  send_keep_alive-seen,
}

-- What a relay sees of that.
viewed :
    {v w : ((Bytes × Bytes) × Bytes × Bytes) × Bool}
    → v ≡ w
    → ◌≡◌ {A = Bytes × Bytes × Bool} (v.0.0.0, v.0.0.1, v.1) (w.0.0.0, w.0.0.1, w.1)
viewed = ap λ v. (v.0.0.0, v.0.0.1, v.1)

module _ (os : Os) (ssl : Tls) (callback : Callback) (ignores : Ignores callback) where
  udp_recv-Gives :
      (n : ℕ) (c : St)
      → let (s, out, c1) = udp_recv ssl callback true true n c in
        view udp_recv_data c1
        ≡ (told udp_recv_data c.trace ++ bytes_of out, passed_on c.trace, is_some c.tcp_session)
  unfolding udp_recv
  udp_recv-Gives n c = grind (arith, ignores, append-nil)

  -- A session that is closed after `udp_recv` has given nothing.
  udp_recv-Unless :
      (n : ℕ) (c : St)
      → let (s, out, c1) = udp_recv ssl callback true true n c in
        is_set (is_closed c1) ≡ true → bytes_of out ≡ []
  unfolding udp_recv is_closed
  udp_recv-Unless n c = grind (arith, ignores)

  ossl_api-Relays : (fuel : ℕ) → Relays udp_recv_data (ossl_api os ssl callback fuel)
  ossl_api-Relays fuel = record {
    get_timeout = λ c. refl;
    process_events = λ c f e.
        let same : process_events ssl callback os fuel ≡ f =
          ap (λ o. or_return o (process_events ssl callback os fuel) (λ g. g)) e in
        subst (λ (g : St → Outcome Status × St). view udp_recv_data (g c).1 ≡ view udp_recv_data c)
          same (viewed (process_events-seen os ssl callback ignores fuel c));
    hole_punching = λ c. viewed (hole_punching-seen os fuel c);
    connect = λ c. viewed (connect_quic-seen os ssl callback ignores c);
    udp_send = udp_send-seen os ssl callback ignores;
    udp_recv = udp_recv-Gives;
    udp_recv-closed = udp_recv-Unless;
    send_keep_alive = λ c. viewed (send_keep_alive-seen c);
    disconnect = λ c. viewed (disconnect-seen os ssl callback ignores fuel c);
  }

  -- However long udp_connection runs over ossl_quic, whatever OpenSSL does and however it ends,
  -- the bytes that the system has taken for the local end are a prefix of those that the callback
  -- was told as received, and at a success all of them; the callback leaves the connection alone,
  -- there is a TCP session, and at the start nothing is left to pass on.
  pub ossl_relays :
      (fuel : ℕ) (c : St)
      → is_some c.tcp_session ≡ true
      → told udp_recv_data c.trace ≡ passed_on c.trace
      → let (o, c') = udp_connection os (ossl_api os ssl callback fuel) fuel c in
        Relayed udp_recv_data o c'.trace
  ossl_relays fuel =
      udp_connection-relays os (ossl_api os ssl callback fuel) udp_recv_data (ossl_api-Relays fuel)
        fuel
