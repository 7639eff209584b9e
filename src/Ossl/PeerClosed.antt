-- ===== src/Ossl/PeerClosed.antt =====
-- source/libs/protocols/ossl_quic/src/ossl_quic.c: the peer's close of a QUIC session ends
-- udp_connection.
use quic_web_rtc_like.Base.{
  ℕ, zero, suc, ◌+◌, ◌<◌, ◌≡◌, ◌≢◌, refl, ap, ◌∙◌, inl, inr, true, false, some, ◌∷◌, ℤ, arith,
  Bool-cases, if◌then◌else◌,
}
use quic_web_rtc_like.Sys.{Os, Trace, returned, exited, Outcome-cases, tls}
use quic_web_rtc_like.Sys.Tls.{handle_events, ssl_shutdown}
use quic_web_rtc_like.Conn.{Status, ok, err, is_error, is_set, UdpSession}
use quic_web_rtc_like.Conn.Loop.{Loop, rounds, round, run_events}
use quic_web_rtc_like.Ossl.State.{Data, Config, is_closed}
use quic_web_rtc_like.Ossl.Setup.{St}
use quic_web_rtc_like.Ossl.Connect.{Callback}
use quic_web_rtc_like.Ossl.Tls.{Tls, nonzero}
use quic_web_rtc_like.Ossl.Close.{
  record_close_status, monotonic_ms, shutdown_wait, shutdown_rounds, finish_shutdown, close_quic,
  disconnect,
}
use quic_web_rtc_like.Ossl.Transfer.{process_events}
use quic_web_rtc_like.Ossl.Backend.{ossl_api}
use quic_web_rtc_like.Ossl.Ended.{PastBy, disconnect-ends}
use quic_web_rtc_like.Ossl.Closed.{Ignores, IsReady, disconnect-IsReady, close_quic-OnlyErr}

module _ (os : Os) (ssl : Tls) where
  shutdown_rounds-stays :
      (fd : ℤ) (h deadline fuel : ℕ) (s : Status) (t : Trace)
      → (shutdown_rounds os ssl fd h deadline fuel s t).0 ≢ exited
  unfolding shutdown_rounds
  shutdown_rounds-stays fd h deadline zero s t = ground arith
  shutdown_rounds-stays fd h deadline (suc f) s t =
      let t2 : Trace = tls (ssl_shutdown h) ∷ tls (handle_events h) ∷ t in
      let s1 = (record_close_status ssl h s t2).1 in
      let t3 = (shutdown_wait os ssl fd h deadline t2).1 in
      ground (arith, shutdown_rounds-stays fd h deadline f s1 t3)

  close_quic-stays :
      (fuel : ℕ) (fd : ℤ) (d : Data ℕ ℕ) (t : Trace) → (close_quic os ssl fuel fd d t).0 ≢ exited
  unfolding close_quic finish_shutdown
  close_quic-stays fuel fd d t = grind (arith, shutdown_rounds-stays)

  disconnect-stays :
      (callback : Callback) (fuel : ℕ) (c : St) → (disconnect os ssl callback fuel c).0 ≢ exited
  unfolding disconnect
  disconnect-stays callback fuel c = grind (arith, close_quic-stays)

-- A close that is recorded as an error is returned as one.
disconnect-err :
    (os : Os) (ssl : Tls) (callback : Callback)
    → Ignores callback
    → (fuel : ℕ) (c : St) (d : Data ℕ ℕ) (s : Status) → IsReady c d
    → d.close_status ≡ err
    → d.closed ≡ false
    → (disconnect os ssl callback fuel c).0 ≡ returned s
    → s ≡ err
unfolding disconnect
disconnect-err os ssl callback ignores fuel c d s live failed on done =
    grind (arith, ignores, close_quic-OnlyErr os ssl fuel live.session.socket_fd d c.trace failed)

is_closed-set :
    (c : St) (d : Data ℕ ℕ) → IsReady c d → d.closed ≡ true → is_set (is_closed c) ≡ true
unfolding is_closed
is_closed-set c d live shut = ground (arith, live.has_data)

is_closed-clear :
    (c : St) (d : Data ℕ ℕ) → IsReady c d → d.closed ≡ false → is_set (is_closed c) ≡ false
unfolding is_closed
is_closed-clear c d live on = ground (arith, live.has_data)

module _ (os : Os) (ssl : Tls) (callback : Callback) (ignores : Ignores callback) (fuel h code : ℕ)
    (d : Data ℕ ℕ) where
  -- What process_events has recorded when it finds the connection being closed.
  abbrev found : Trace → Data ℕ ℕ
  found t = record d { close_status = (record_close_status ssl h d.close_status t).1 }

  abbrev noted : St → St
  noted c =
      let t : Trace = tls (handle_events h) ∷ c.trace in
      record c { data_ptr = some (found t); trace = t }

  found-err :
      (t : Trace)
      → ssl.close_info t h ≡ some code
      → d.close_status ≡ ok
      → code ≢ 0
      → (found t).close_status ≡ err
  unfolding record_close_status
  found-err t closing clean fatal = ground arith

  process_events-closing :
      (c : St)
      → IsReady c d
      → d.conn ≡ some h
      → nonzero (ssl.result c.trace (handle_events h)) ≡ true
      → ssl.close_info (tls (handle_events h) ∷ c.trace) h ≡ some code
      → process_events ssl callback os fuel c ≡ disconnect os ssl callback fuel (noted c)
  unfolding process_events record_close_status
  process_events-closing c live connected handled closing = ground (arith, live.has_data)

  noted-IsReady : (c : St) → IsReady c d → IsReady (noted c) (found (noted c).trace)
  noted-IsReady c live = record {
    session = live.session;
    has_session = live.has_session;
    ctrl = live.ctrl;
    has_ctrl = live.has_ctrl;
    inited = live.inited;
    has_data = refl;
  }

  -- A round in which process_events closes the session is the last.
  rounds-last :
      (f : ℕ) (u : UdpSession) (l : Loop (Data ℕ ℕ) Config) (s : Status) (c' : St)
      → is_set (is_closed l.conn) ≡ false
      → process_events ssl callback os fuel l.conn ≡ (returned s, c')
      → is_set (is_closed c') ≡ true
      → rounds os (ossl_api os ssl callback fuel) (suc f) u l
        ≡ (returned (if is_error s then s else ok), c')
  unfolding rounds round run_events
  rounds-last f u l s c' on ends shut = elim (Bool-cases (is_error s)) [
    | inl bad ↦ rw (on, ends, bad, rounds) refl
    | inr good ↦ rw (on, ends, good, shut, rounds) refl
  ]

-- Where a round of udp_connection over an open QUIC session of clean status, with every pointer
-- set, starts with OpenSSL handling its events and reporting that the connection is being closed,
-- that round is the last one: the loop returns with the session closed, and with the status of the
-- close, a success where that is no error; a close for an error code other than 0 is an error. The
-- callback leaves the connection alone, and the clock fails or has passed the start of the
-- shutdown by five seconds once the history has n events, with a fuel above n.
pub peer_close_ends :
    (os : Os) (ssl : Tls) (callback : Callback)
    → Ignores callback
    → (n fuel h code f : ℕ) (d : Data ℕ ℕ) (u : UdpSession) (l : Loop (Data ℕ ℕ) Config)
    → IsReady l.conn d
    → d.closed ≡ false
    → d.close_status ≡ ok
    → d.conn ≡ some h
    → (let t : Trace = tls (handle_events h) ∷ l.conn.trace in
        (nonzero (ssl.result l.conn.trace (handle_events h)) ≡ true)
        × (ssl.close_info t h ≡ some code)
        × ((started : ℕ) → monotonic_ms os t ≡ some started → PastBy os (started + 5000) n))
    → n < fuel
    → let (o, c') = rounds os (ossl_api os ssl callback fuel) (suc f) u l in
      (s : Status) × (o ≡ returned (if is_error s then s else ok))
      × IsReady c' (record d { closed = true; close_status = s })
      × (code ≢ 0 → s ≡ err)
peer_close_ends os ssl callback ignores n fuel h code f d u l live on clean connected
      (handled, closing, past) enough =
    let c1 = noted os ssl callback ignores fuel h code d l.conn in
    let d1 = found os ssl callback ignores fuel h code d c1.trace in
    let live1 : IsReady c1 d1 = noted-IsReady os ssl callback ignores fuel h code d l.conn live in
    let same : process_events ssl callback os fuel l.conn ≡ disconnect os ssl callback fuel c1 =
      process_events-closing os ssl callback ignores fuel h code d l.conn live connected handled
        closing in
    let c' = (disconnect os ssl callback fuel c1).1 in
    elim (Outcome-cases (disconnect os ssl callback fuel c1).0) [
      | inl (s, done) ↦
          let closed_now = disconnect-IsReady os ssl callback ignores fuel c1 d1 s live1 done in
          let last =
            rounds-last os ssl callback ignores fuel h code d f u l s c'
              (is_closed-clear l.conn d live on) (same ∙ λ i. (done i, c'))
              (is_closed-set c' _ closed_now refl) in
          (
            s,
            ap (λ r. r.0) last,
            rw last closed_now,
            λ fatal.
                disconnect-err os ssl callback ignores fuel c1 d1 s live1
                  (found-err os ssl callback ignores fuel h code d c1.trace closing clean fatal) on
                  done,
          )
      | inr (inl out) ↦ absurd (disconnect-stays os ssl callback fuel c1 out)
      | inr (inr dry) ↦ absurd (disconnect-ends os ssl callback n fuel c1 past enough dry)
    ]
