-- ===== src/Chownat/Tests.antt =====
-- The theorems on chownat at concrete inputs.
use quic_web_rtc_like.Base.{
  ◌≤◌, ◌≡◌, ◌≢◌, refl, true, false, none, some, [], ◌∷◌, Bytes, pos, minus_one, arith, length, take,
  flatten, ltb_ℤ,
}
use quic_web_rtc_like.Sys.{Os, got, again, returned, out_of_fuel}
use quic_web_rtc_like.Conn.{ok, TcpSession}
use quic_web_rtc_like.Chownat.State.{St, mtu}
use quic_web_rtc_like.Chownat.Msg
use quic_web_rtc_like.Chownat.Confirm.{confirm_rounds}
use quic_web_rtc_like.Chownat.Disconnect.{disconnect_send, disconnect_recv}
use quic_web_rtc_like.Chownat.Closing.{
  FallsSilent, disconnect_send-ok, disconnect_recv-ok, confirm_rounds_held,
}
use quic_web_rtc_like.Chownat.Tunnel.{
  Tunnel, Reach, here, next, send, deliver, after_send, after_delivery,
}
use quic_web_rtc_like.Chownat.Stream.{fresh, delivered_prefix}
use quic_web_rtc_like.Chownat.Transfer.{udp_send, udp_recv, store, next_number, resent}
use quic_web_rtc_like.Chownat.Punch.{hole_punching}
use quic_web_rtc_like.Chownat.Opening.{hole_punching-ends}
use quic_web_rtc_like.Chownat.Retransmit.{resent_corrupts}
use quic_web_rtc_like.Chownat.Fixtures.{
  system, silent, session, local_end, settings, data_at, conn_in, live, ignore, ignores, payload,
  opened,
}

abbrev pub start : Tunnel
start = fresh opened opened

abbrev pub sent_one : Tunnel
sent_one = after_send ignore start silent payload (Msg.packet 0 payload)

abbrev pub arrived : Tunnel
arrived = after_delivery ignore sent_one (system (got (Msg.packet 0 payload))) 0

abbrev pub sending : Reach ignore start sent_one
unfolding udp_send
sending = next here (send start silent payload (Msg.packet 0 payload) (omega arith) refl)

abbrev pub arriving : Reach ignore start arrived
arriving = next sending (
    deliver sent_one (system (got (Msg.packet 0 payload))) 0 0 (Msg.packet 0 payload) refl
      (omega arith) (omega arith) λ fd. refl)

delivered_prefix_example :
    (arrived.count ≤ length arrived.sent)
    × (arrived.delivered ≡ flatten (take arrived.count arrived.sent))
delivered_prefix_example =
    delivered_prefix ignore ignores opened opened (live (data_at false 0)) (live (data_at false 0))
      (refl, refl) (refl, refl) arriving

abbrev receiving : Bytes → Os
receiving m = system (got m)

abbrev not_yet : St
not_yet = record opened { ctrl = some (record { mode = b'c'; init = false }) }

disconnect_send-ok_example :
    let c' = (disconnect_send silent opened).1 in
    ((disconnect_send silent opened).0 ≡ ok)
    × (c'.data_ptr ≡ some (data_at true 0))
    × (c'.udp_session ≡ some session)
    × (c'.ctrl ≡ opened.ctrl)
    × (c'.config ≡ some settings)
    × ((tcp : TcpSession)
        → c'.tcp_session ≡ some tcp
        → (ltb_ℤ (pos 0) tcp.socket_fd ≡ false) × (ltb_ℤ (pos 0) tcp.accepted_sock ≡ false))
disconnect_send-ok_example =
    disconnect_send-ok silent opened (data_at false 0) (live (data_at false 0)) refl

abbrev falls_silent : FallsSilent silent 0
falls_silent t fd k h = (again, refl)

disconnect_recv-ok_example :
    let (o, c') = disconnect_recv silent 3 opened in
    (o ≡ returned ok)
    × (c'.data_ptr ≡ some (data_at true 0))
    × ((tcp : TcpSession)
        → c'.tcp_session ≡ some tcp
        → (tcp.socket_fd ≡ minus_one) × (tcp.accepted_sock ≡ minus_one))
disconnect_recv-ok_example =
    disconnect_recv-ok silent 0 3 opened (data_at false 0) (live (data_at false 0)) falls_silent
      refl (omega arith)

confirm_rounds_held_example :
    confirm_rounds (receiving Msg.close_request) session (pos 2) 50 0 [] [] ≡ none
confirm_rounds_held_example =
    confirm_rounds_held (receiving Msg.close_request) session b'0' b'2' 10 (λ t fd k. refl) refl 1
      50 [] []

abbrev server_end : TcpSession
server_end = record local_end { accepted_sock = pos 4 }

hole_punching-ends_example :
    (hole_punching silent 5 (conn_in b's' (data_at false 0))).0 ≢ out_of_fuel
hole_punching-ends_example =
    hole_punching-ends silent 0 5 (conn_in b's' (data_at false 0)) settings refl falls_silent
      (omega arith)

abbrev long_payload : Bytes
long_payload = 1 ∷ 2 ∷ 3 ∷ 4 ∷ 5 ∷ []

abbrev lossy : Os
lossy = receiving (resent (store long_payload (data_at false 0)) 0)

resent_corrupts_example :
    let (o, out, c') = udp_recv lossy ignore 9 true mtu opened in
    (o ≡ returned ok)
    × (out ≡ some (1 ∷ 2 ∷ []))
    × (1 ∷ 2 ∷ [] ≢ long_payload)
    × (c'.data_ptr ≡ some (record (data_at false 0) { expected = next_number 0 }))
resent_corrupts_example =
    resent_corrupts lossy ignore ignores 9 long_payload (data_at false 0) opened (data_at false 0)
      (live (data_at false 0)) refl (omega arith) refl (omega arith) (omega arith) refl
