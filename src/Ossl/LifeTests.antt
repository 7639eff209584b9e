-- ===== src/Ossl/LifeTests.antt =====
-- The theorems on a whole program over ossl_quic at concrete inputs.
use quic_web_rtc_like.Base.{ℕ, ◌≡◌, refl, true, false, none, some, [], pos, length}
use quic_web_rtc_like.Sys.{returned}
use quic_web_rtc_like.Sys.Tls.{ctx_set, alpn_protos}
use quic_web_rtc_like.Conn.{ok}
use quic_web_rtc_like.Conn.Api.{udp_conn_init, udp_conn_deinit}
use quic_web_rtc_like.Conn.Tcp.{tcp_bind, bind_client}
use quic_web_rtc_like.Conn.Loop.{monotonic_us, rounds, round, run_events}
use quic_web_rtc_like.Conn.Session.{udp_connection, open_session, open_client}
use quic_web_rtc_like.Ossl.Tls.{Tls}
use quic_web_rtc_like.Ossl.Setup.{St, init, setup_client, new_ctx, choose_suites}
use quic_web_rtc_like.Ossl.State.{is_closed}
use quic_web_rtc_like.Ossl.Suites.{apply_suites}
use quic_web_rtc_like.Ossl.Punch.{hole_punching, punch, conclude, discover, transient}
use quic_web_rtc_like.Ossl.Connect.{connect_quic, pre_connect, prepare_client, handshake}
use quic_web_rtc_like.Ossl.Close.{
  monotonic_ms, close_quic, disconnect, finish_shutdown, shutdown_rounds, shutdown_wait,
  record_close_status,
}
use quic_web_rtc_like.Ossl.Transfer.{process_events}
use quic_web_rtc_like.Ossl.Release.{deinit, release, close_tcp}
use quic_web_rtc_like.Ossl.Backend.{ossl_api}
use quic_web_rtc_like.Ossl.Released.{freed}
use quic_web_rtc_like.Ossl.Objects.{times, made, holding}
use quic_web_rtc_like.Ossl.Lifetime.{no_object_lost}
use quic_web_rtc_like.Ossl.Tests.{peer, connection}
use quic_web_rtc_like.Ossl.RunTests.{library, ticking, ignore, ignores}

-- Every object is a new one; the ALPN list is taken.
abbrev numbering : Tls
numbering = record library {
  object = λ t k. some (length t);
  result = λ t k. elim k [ ctx_set x s ↦ elim s [ alpn_protos ↦ pos 0 | _ ↦ pos 1 ] | _ ↦ pos 1 ];
}

-- A client's connection before the initialisation.
abbrev starting : St
starting = record connection {
  ctrl = some (record { mode = b'c'; init = false });
  data_ptr =
      some (record { closed = true; close_status = ok; ctx = none; listener = none; conn = none });
  tcp_session =
      some (record { socket_fd = pos 4; accepted_sock = pos 5; reuse = pos 1; local = peer });
}

starts_well : (udp_conn_init (ossl_api ticking numbering ignore 6) starting).0 ≡ ok
unfolding init setup_client new_ctx choose_suites apply_suites
starts_well = refl

abbrev ended : St
ended =
    let api = ossl_api ticking numbering ignore 6 in
    (udp_connection ticking api 6 (udp_conn_init api starting).1).1

ends_well : (udp_conn_deinit (ossl_api ticking numbering ignore 6) ended).0 ≡ returned ok
unfolding init setup_client new_ctx choose_suites apply_suites udp_connection open_session
    open_client tcp_bind bind_client hole_punching punch conclude discover transient connect_quic
    pre_connect prepare_client handshake monotonic_us rounds round run_events process_events
    disconnect close_quic finish_shutdown shutdown_rounds shutdown_wait monotonic_ms
    record_close_status is_closed deinit release close_tcp
ends_well = refl

-- A context and a connection are made and freed.
two_made : length (made numbering ended.trace) ≡ 2
unfolding init setup_client new_ctx choose_suites apply_suites udp_connection open_session
    open_client tcp_bind bind_client hole_punching punch conclude discover transient connect_quic
    pre_connect prepare_client handshake monotonic_us rounds round run_events process_events
    disconnect close_quic finish_shutdown shutdown_rounds shutdown_wait monotonic_ms
    record_close_status is_closed
two_made = refl

no_object_lost_example :
    let c3 = (udp_conn_deinit (ossl_api ticking numbering ignore 6) ended).1 in
    ((h : ℕ) → times h (made numbering c3.trace) ≡ times h (freed c3.trace))
    × (holding c3.data_ptr ≡ [])
no_object_lost_example =
    no_object_lost numbering ticking ignore ignores 6 starting ok refl refl starts_well ends_well
