-- ===== src/Chownat/Program.antt =====
-- Two programs that open chownat with udp_conn_init and then run udp_connection.
use quic_web_rtc_like.Base.{
  ℕ, ◌≡◌, ap, sym, ◌∙◌, true, some, [], ◌++◌, Bytes, arith, length, is_some,
}
use quic_web_rtc_like.Sys.{Os, returned}
use quic_web_rtc_like.Conn.{ok}
use quic_web_rtc_like.Conn.Api.{udp_conn_init}
use quic_web_rtc_like.Conn.Relay.{told, taken, passed_on}
use quic_web_rtc_like.Conn.Session.{udp_connection}
use quic_web_rtc_like.Chownat.State.{Data, St, Callback}
use quic_web_rtc_like.Chownat.Setup.{init}
use quic_web_rtc_like.Chownat.Reason
use quic_web_rtc_like.Chownat.Backend.{chownat_api}
use quic_web_rtc_like.Chownat.Delivery.{Ignores}
use quic_web_rtc_like.Chownat.Seen.{logs}
use quic_web_rtc_like.Chownat.Assembled.{Assembles}
use quic_web_rtc_like.Chownat.Genuine.{accepted}
use quic_web_rtc_like.Chownat.Upload.{AllSet, number}
use quic_web_rtc_like.Chownat.Wire.{posted}
use quic_web_rtc_like.Chownat.EndToEnd.{Fresh, Delivers, end_to_end}

-- The initialisation carries nothing.
init-logs : (os : Os) (c : St) → logs (init os c).1.trace ≡ logs c.trace
unfolding init
init-logs os c = ground arith

-- Where it succeeds, every pointer is set, the session is open, and both numbers are 0.
init-AllSet : (os : Os) (c : St) → (init os c).0 ≡ ok → AllSet (init os c).1
unfolding init
init-AllSet os c good = ground arith

init-number : (os : Os) (c : St) → (init os c).0 ≡ ok → number (init os c).1 ≡ 0
unfolding init
init-number os c good = ground arith

init-expected :
    (os : Os) (c : St) (d : Data)
    → (init os c).0 ≡ ok
    → (init os c).1.data_ptr ≡ some d
    → d.expected ≡ 0
unfolding init
init-expected os c d good has = ground arith

init-tcp : (os : Os) (c : St) → (init os c).1.tcp_session ≡ c.tcp_session
unfolding init
init-tcp os c = ground arith

init-nothing : (os : Os) (c : St) → c.trace ≡ [] → logs (init os c).1.trace ≡ logs []
init-nothing os c start = init-logs os c ∙ ap logs start

init-Fresh : (os : Os) (c : St) → c.trace ≡ [] → (init os c).0 ≡ ok → Fresh (init os c).1
init-Fresh os c start good = record {
  set = init-AllSet os c good;
  nothing_sent = ap (λ v. v.3) (init-nothing os c start);
  nothing_taken = ap (λ v. v.2) (init-nothing os c start);
  first = λ still. init-number os c good;
}

init-Assembles : (os : Os) (c : St) → c.trace ≡ [] → (init os c).0 ≡ ok → Assembles (init os c).1
init-Assembles os c start good =
    let e = init-nothing os c start in
    (
      ap (λ v. v.0.1) e ∙ sym (ap (λ v. v.0.0.1) e),
      λ d has still. init-expected os c d good has ∙ sym (ap (λ v. v.0.0.0) e),
    )

-- Two programs, each with its system, callback and fuel, start with an empty history, open chownat
-- by udp_conn_init with success and then run udp_connection; the second has a TCP session. Where
-- every packet that the second reads as a datagram was sent by the first with a payload, which a
-- retransmission is not, and comes at most 255 packets from its turn, however the datagrams are
-- lost, repeated and reordered and however both runs end, what the second's local end has got is a
-- prefix of what the first's local end had sent, each byte once and in order; and where the
-- second's run succeeds and as many packets have counted as were sent, it is all that the first's
-- callback was told as sent. Both callbacks leave the connection alone.
pub tunnel :
    (os1 os2 : Os) (callback1 callback2 : Callback)
    → Ignores callback1
    → Ignores callback2
    → (fuel1 fuel2 : ℕ) (c1 c2 : St) → c1.trace ≡ []
    → c2.trace ≡ []
    → is_some c2.tcp_session ≡ true
    → (udp_conn_init (chownat_api os1 callback1 fuel1) c1).0 ≡ ok
    → (udp_conn_init (chownat_api os2 callback2 fuel2) c2).0 ≡ ok
    → let api1 = chownat_api os1 callback1 fuel1 in
      let api2 = chownat_api os2 callback2 fuel2 in
      let sender = (udp_connection os1 api1 fuel1 (udp_conn_init api1 c1).1).1 in
      let receiver = (udp_connection os2 api2 fuel2 (udp_conn_init api2 c2).1).1 in
      Delivers (posted sender.trace) receiver.trace
      → let api1 = chownat_api os1 callback1 fuel1 in
        let api2 = chownat_api os2 callback2 fuel2 in
        let sender = (udp_connection os1 api1 fuel1 (udp_conn_init api1 c1).1).1 in
        let (o, receiver) = udp_connection os2 api2 fuel2 (udp_conn_init api2 c2).1 in
        (rest : Bytes) × (taken sender.trace ≡ passed_on receiver.trace ++ rest)
        × (o ≡ returned ok
            → accepted receiver.trace ≡ length (posted sender.trace)
            → told Reason.udp_data_sent sender.trace ≡ passed_on receiver.trace)
tunnel os1 os2 callback1 callback2 ignores1 ignores2 fuel1 fuel2 c1 c2 start1 start2 tcp good1 good2
      delivers =
    let e = init-nothing os2 c2 start2 in
    end_to_end os1 os2 callback1 callback2 ignores1 ignores2 fuel1 fuel2 (init os1 c1).1
      (init os2 c2).1 (init-Fresh os1 c1 start1 good1) (rw init-tcp tcp)
      (ap (λ v. v.0.1) e ∙ sym (ap (λ v. v.0.2) e)) (init-Assembles os2 c2 start2 good2) delivers
